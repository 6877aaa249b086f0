-- ===== src/Graph/Ends.antt =====
-- With more fuel than keys the walk ends.
use atlas_py.Prelude.{
  ℕ, zero, suc, ◌<◌, ◌≤◌, String, ◌≡◌, ◌≢◌, inl, inr, true, List, [], ◌∷◌, ◌++◌, arith, contains,
  length, Bool-cases,
}
use atlas_py.Prelude.Counting.{unseen, unseen_mono, unseen-concat-lt, unseen-le-length}
use atlas_py.Errors.{Result, ok, err, out_of_fuel, Result-cases}
use atlas_py.Graph.{each, visit, visit_all}
use atlas_py.Graph.Walk.{visit-Closes}

-- The nodes that have successors are among the keys, and `next` does not run out of fuel itself.
pub record IsKeyed (next : String → Result (List String)) (ks : List String) : Type 0 where
  pub honest : (x : String) → next x ≢ err out_of_fuel
  pub keyed : (x y : String) (ys : List String) → next x ≡ ok (y ∷ ys) → contains ks x ≡ true

module _ (next : String → Result (List String)) (ks : List String) (w : IsKeyed next ks) where
  each-ends :
      (f : String → List String → Result (List String)) (n : ℕ)
      → ((x : String) (seen : List String) → unseen seen ks ≤ n → f x seen ≢ err out_of_fuel)
      → ((x : String) (seen after : List String)
          → f x seen ≡ ok after
          → unseen after ks ≤ unseen seen ks)
      → (xs seen : List String) → unseen seen ks ≤ n
      → each f xs seen ≢ err out_of_fuel
  unfolding each
  each-ends f n ends grows [] seen h e = cc
  each-ends f n ends grows (x ∷ xs) seen h e = elim (Result-cases (f x seen)) [
    | inl (mid, e') ↦
        each-ends f n ends grows xs mid (omega (arith, grows x seen mid e')) (rw e' at e)
    | inr (c, e') ↦ ends x seen h (rw e' (rw e' at e))
  ]

  visit_grows :
      (fuel : ℕ) (x : String) (seen after : List String)
      → visit next fuel x seen ≡ ok after
      → unseen after ks ≤ unseen seen ks
  visit_grows fuel x seen after h =
      unseen_mono seen after ks (visit-Closes next fuel x seen after h).0.0

  visit-ends :
      (fuel : ℕ) (x : String) (seen : List String)
      → unseen seen ks < fuel
      → visit next fuel x seen ≢ err out_of_fuel
  unfolding visit each
  visit-ends zero x seen h e = absurd (omega arith)
  visit-ends (suc fuel) x seen h e = elim (Bool-cases (contains seen x)) [
    | inl old ↦ cc (rw old at e)
    | inr fresh ↦ elim (Result-cases (next x)) [
      | inr (c, e') ↦ w.honest x (rw e' (rw (fresh, e') at e))
      | inl ([], e') ↦ cc (rw (fresh, e') at e)
      | inl (y ∷ ys, e') ↦
          each-ends (visit next fuel) (unseen (seen ++ x ∷ []) ks)
            (λ z more m.
              visit-ends fuel z more
                (omega (arith, unseen-concat-lt seen ks x fresh (w.keyed x y ys e'))))
            (visit_grows fuel) (y ∷ ys) (seen ++ x ∷ []) (omega arith) (rw (fresh, e') at e)
    ]
  ]

  -- A walk with more fuel than there are keys does not run out of it.
  pub visit_all-ends :
      (fuel : ℕ) (roots : List String)
      → length ks < fuel
      → visit_all next fuel roots ≢ err out_of_fuel
  unfolding visit_all
  visit_all-ends fuel roots h =
      each-ends (visit next fuel) (length ks) (λ x seen m. visit-ends fuel x seen (omega arith))
        (visit_grows fuel) roots [] (unseen-le-length [] ks)
