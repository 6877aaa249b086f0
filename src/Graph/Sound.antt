-- ===== src/Graph/Sound.antt =====
-- The walk marks nothing but what is reached from its roots.
use mathlib.Core.Path.{subst}
use atlas_py.Prelude.{
  ℕ, zero, suc, String, ◌≡◌, inl, inr, true, List, [], ◌∷◌, ◌++◌, contains, Bool-cases,
  contains_self, contains-tail,
}
use atlas_py.Errors.{Result, ok, >>=-eq-ok}
use atlas_py.Graph.{each, visit, visit_all}
use atlas_py.Graph.Walk.{Reach, here, step, ok_injective, absurd_contains, contains-concat_cases}

module _ (next : String → Result (List String)) (P : String → Type 0)
    (follow : (x : String) (ys : List String) (z : String)
      → P x
      → next x ≡ ok ys
      → contains ys z ≡ true
      → P z) where
  abbrev Holds : List String → Type 0
  Holds seen = (y : String) → contains seen y ≡ true → P y

  each-Holds :
      (f : String → List String → Result (List String))
      → ((x : String) (seen after : List String)
          → P x
          → Holds seen
          → f x seen ≡ ok after
          → Holds after)
      → (xs seen after : List String) → ((x : String) → contains xs x ≡ true → P x)
      → Holds seen
      → each f xs seen ≡ ok after
      → Holds after
  unfolding each
  each-Holds f keep [] seen after all held h = subst Holds (ok_injective h) held
  each-Holds f keep (x ∷ xs) seen after all held h =
      let (mid, e, rest) = >>=-eq-ok (f x seen) (each f xs) h in
      each-Holds f keep xs mid after (λ y m. all y (contains-tail x xs y m))
        (keep x seen mid (all x (contains_self x xs)) held e) rest

  visit-Holds :
      (fuel : ℕ) (x : String) (seen after : List String)
      → P x
      → Holds seen
      → visit next fuel x seen ≡ ok after
      → Holds after
  unfolding visit
  visit-Holds zero x seen after p held h = cc
  visit-Holds (suc fuel) x seen after p held h = elim (Bool-cases (contains seen x)) [
    | inl old ↦ subst Holds (ok_injective (rw old at h)) held
    | inr fresh ↦
        let (ys, e, walked) =
          >>=-eq-ok (next x) (λ xs. each (visit next fuel) xs (seen ++ x ∷ [])) (rw fresh at h) in
        each-Holds (visit next fuel) (visit-Holds fuel) ys (seen ++ x ∷ []) after
          (λ z m. follow x ys z p e m)
          (λ y m. elim (contains-concat_cases seen x y m) [
            | inl older ↦ held y older
            | inr same ↦ subst P same p
          ])
          walked
  ]

  visit_all-Holds :
      (fuel : ℕ) (roots after : List String)
      → ((x : String) → contains roots x ≡ true → P x)
      → visit_all next fuel roots ≡ ok after
      → Holds after
  unfolding visit_all
  visit_all-Holds fuel roots after all h =
      each-Holds (visit next fuel) (visit-Holds fuel) roots [] after all
        (λ y m. absurd_contains y m) h

-- Every node that is marked is reached from a root.
pub visit_all_sound :
    (next : String → Result (List String)) (fuel : ℕ) (roots after : List String) (y : String)
    → visit_all next fuel roots ≡ ok after
    → contains after y ≡ true
    → (x : String) × (contains roots x ≡ true) × Reach next x y
visit_all_sound next fuel roots after y h m =
    visit_all-Holds next (λ z. (x : String) × (contains roots x ≡ true) × Reach next x z)
      (λ u ys z (x, root, r) e i. (x, root, step ys z r e i)) fuel roots after
      (λ x root. (x, root, here)) h y m
