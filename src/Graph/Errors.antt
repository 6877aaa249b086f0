-- ===== src/Graph/Errors.antt =====
-- A walk raises only what a successor lookup raises, at a node that is reached.
use atlas_py.Prelude.{
  ℕ, zero, suc, String, ◌≡◌, ◌∙◌, ap, ◌<◌, ◌↔◌, inl, inr, true, List, [], ◌∷◌, ◌++◌, contains,
  length, Bool-cases, contains_self, contains-tail,
}
use atlas_py.Errors.{AtlasError, Result, ok, err, out_of_fuel, Result-cases}
use atlas_py.Graph.{each, visit, visit_all}
use atlas_py.Graph.Walk.{Reach, visit_all_complete}
use atlas_py.Graph.Sound.{visit_all_sound}
use atlas_py.Graph.Ends.{IsKeyed, visit_all-ends}

module _ (next : String → Result (List String)) (P : String → Type 0)
    (follow : (x : String) (ys : List String) (z : String)
      → P x
      → next x ≡ ok ys
      → contains ys z ≡ true
      → P z)
    (find : (x : String) → P x → (ys : List String) × (next x ≡ ok ys)) where
  each-fuel :
      (f : String → List String → Result (List String))
      → ((x : String) (seen : List String) (e : AtlasError)
          → P x
          → f x seen ≡ err e
          → e ≡ out_of_fuel)
      → (xs seen : List String) (e : AtlasError) → ((x : String) → contains xs x ≡ true → P x)
      → each f xs seen ≡ err e
      → e ≡ out_of_fuel
  unfolding each
  each-fuel f only [] seen e all h = cc
  each-fuel f only (x ∷ xs) seen e all h = elim (Result-cases (f x seen)) [
    | inl (mid, e') ↦ each-fuel f only xs mid e (λ y m. all y (contains-tail x xs y m)) (rw e' at h)
    | inr (c, e') ↦ only x seen e (all x (contains_self x xs)) (e' ∙ (rw e' at h))
  ]

  visit-fuel :
      (fuel : ℕ) (x : String) (seen : List String) (e : AtlasError)
      → P x
      → visit next fuel x seen ≡ err e
      → e ≡ out_of_fuel
  unfolding visit
  visit-fuel zero x seen e p h = cc
  visit-fuel (suc fuel) x seen e p h = elim (Bool-cases (contains seen x)) [
    | inl old ↦ cc (rw old at h)
    | inr fresh ↦
        let (ys, e') = find x p in
        each-fuel (visit next fuel) (visit-fuel fuel) ys (seen ++ x ∷ []) e
          (λ z m. follow x ys z p e' m) (rw (fresh, e') at h)
  ]

  -- A walk of such nodes, with more fuel than keys, returns.
  pub visit_all-returns :
      (ks : List String) (fuel : ℕ) (roots : List String)
      → IsKeyed next ks
      → length ks < fuel
      → ((x : String) → contains roots x ≡ true → P x)
      → (after : List String) × (visit_all next fuel roots ≡ ok after)
  visit_all-returns ks fuel roots w h all = elim (Result-cases (visit_all next fuel roots)) [
    | inl returned ↦ returned
    | inr (e, raised) ↦ absurd (
        visit_all-ends next ks w fuel roots h (
          raised
          ∙ ap err (
              each-fuel (visit next fuel) (visit-fuel fuel) roots [] e all
                (unfold visit_all in raised))))
  ]

  -- It returns exactly what is reached from the roots.
  pub visit_all-reaches :
      (ks : List String) (fuel : ℕ) (roots : List String)
      → IsKeyed next ks
      → length ks < fuel
      → ((x : String) → contains roots x ≡ true → P x)
      → (after : List String) × (visit_all next fuel roots ≡ ok after)
        × ((y : String)
            → contains after y ≡ true ↔ ((x : String) × (contains roots x ≡ true) × Reach next x y))
  visit_all-reaches ks fuel roots w h all =
      let (after, e) = visit_all-returns ks fuel roots w h all in
      (
        after,
        e,
        λ y. (
          visit_all_sound next fuel roots after y e,
          λ (x, m, r). visit_all_complete next fuel roots after x y e m r,
        ),
      )
