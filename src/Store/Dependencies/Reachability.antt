-- ===== src/Store/Dependencies/Reachability.antt =====
-- The two closures of the store, as reachability along the derivations.
use mathlib.Core.Path.{subst}
use atlas_py.Prelude.{
  suc, String, ◌≡◌, ◌≢◌, refl, sym, ap, ◌∙◌, ◌↔◌, inl, inr, true, false, List, ◌∷◌, arith, contains,
  length, Option-cases,
}
use atlas_py.Prelude.Dict.{get, has, keys, contains-keys, length-keys}
use atlas_py.Errors.{ok, err, out_of_fuel, ◌>>=◌}
use atlas_py.Graph.{visit_all}
use atlas_py.Graph.Walk.{Reach, ok_injective}
use atlas_py.Graph.Errors.{visit_all-reaches}
use atlas_py.Problem.{GroundedDecisionProblem}
use atlas_py.Store.{Store, check_open}
use atlas_py.Store.Dependencies.{
  derivation_inputs, direct_dependencies, transitive_dependencies, decision_reads,
  decision_dependency_closure,
}

inputs-keys :
    (s : Store) (x y : String) (ys : List String)
    → derivation_inputs s x ≡ y ∷ ys
    → contains (keys s.derivations) x ≡ true
unfolding derivation_inputs
inputs-keys s x y ys h = elim (Option-cases (get s.derivations x)) [
  | inl e ↦ cc (rw (e, derivation_inputs) at h)
  | inr (d, e) ↦ ground (arith, contains-keys s.derivations x, e)
]

-- The closure of a decision is computed, and holds exactly what is reached along the dependencies of
-- derivations from what the decision read.
pub decision_dependency_closure_lem :
    (s : Store) (p : GroundedDecisionProblem)
    → (closure : List String) × (decision_dependency_closure s p ≡ ok closure)
      × ((y : String)
          → contains closure y ≡ true ↔ (
              (x : String) × (contains (decision_reads s p) x ≡ true)
              × Reach (λ ident. ok (derivation_inputs s ident)) x y))
unfolding decision_dependency_closure
decision_dependency_closure_lem s p =
    visit_all-reaches (λ ident. ok (derivation_inputs s ident)) (λ _. Unit {0}) (λ x ys z u e m. tt)
      (λ x u. (derivation_inputs s x, refl)) (keys s.derivations) (suc (length s.derivations))
      (decision_reads s p)
      (record { honest = λ x e. cc; keyed = λ x y ys e. inputs-keys s x y ys (ok_injective e) })
      (omega (arith, length-keys s.derivations)) (λ x m. tt)

-- A store whose derivations depend on records of the store.
pub record IsClosed (s : Store) : Type 0 where
  pub is_open : s.closed ≡ false
  pub recorded : (x y : String) → contains (derivation_inputs s x) y ≡ true → has s.records y ≡ true

direct_dependencies-ok :
    (s : Store) (x : String)
    → s.closed ≡ false
    → has s.records x ≡ true
    → direct_dependencies s x ≡ ok (derivation_inputs s x)
unfolding direct_dependencies check_open
direct_dependencies-ok s x opened known = ground (arith, opened, known)

direct_dependencies-eq_inputs :
    (s : Store) (x : String) (ys : List String)
    → direct_dependencies s x ≡ ok ys
    → derivation_inputs s x ≡ ys
unfolding direct_dependencies check_open
direct_dependencies-eq_inputs s x ys h = ground arith

direct_dependencies-honest : (s : Store) (x : String) → direct_dependencies s x ≢ err out_of_fuel
unfolding direct_dependencies check_open
direct_dependencies-honest s x h = ground arith

-- In an open store whose derivations depend on its records only, the transitive dependencies of a
-- record are computed, and hold exactly what is reached from its direct dependencies.
pub transitive_dependencies_lem :
    (s : Store) (ident : String)
    → IsClosed s
    → has s.records ident ≡ true
    → (found : List String) × (transitive_dependencies s ident ≡ ok found)
      × ((y : String)
          → contains found y ≡ true ↔ (
              (x : String) × (contains (derivation_inputs s ident) x ≡ true)
              × Reach (direct_dependencies s) x y))
unfolding transitive_dependencies
transitive_dependencies_lem s ident w known =
    let (found, e, reached) =
      visit_all-reaches (direct_dependencies s) (λ x. has s.records x ≡ true)
        (λ x ys z k e m.
          w.recorded x z
            (subst (λ l. contains l z ≡ true) (sym (direct_dependencies-eq_inputs s x ys e)) m))
        (λ x k. (derivation_inputs s x, direct_dependencies-ok s x w.is_open k))
        (keys s.derivations) (suc (length s.derivations)) (derivation_inputs s ident)
        (record {
          honest = direct_dependencies-honest s;
          keyed = λ x y ys e. inputs-keys s x y ys (direct_dependencies-eq_inputs s x (y ∷ ys) e);
        })
        (omega (arith, length-keys s.derivations)) (w.recorded ident) in
    (
      found,
      ap (λ m. m >>= visit_all (direct_dependencies s) (suc (length s.derivations)))
            (direct_dependencies-ok s ident w.is_open known)
          ∙ e,
      reached,
    )
