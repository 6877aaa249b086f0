-- ===== src/Problem/Agreement.antt =====
-- The historical validation of a decision against the selection that it does not run.
use mathlib.Core.List.{append_assoc, append-nil}
use atlas_py.Prelude.{
  String, ◌≡◌, ◌≢◌, ◌∙◌, ap, refl, sym, ◌↔◌, Bool, true, false, Option, none, some, List, [], ◌∷◌,
  ◌++◌, arith, eq_iff, contains, distinct, subset, is_empty, Bool-cases, inl, inr,
}
use atlas_py.Prelude.Dict.{Dict, put, keys, values}
use atlas_py.Prelude.Int.{ℤ, eq_ℤ_iff, minimum-occurs}
use atlas_py.Errors.{ok, ◌>>◌}
use atlas_py.Problem.{
  M1Objective, GroundedCandidate, GroundedDecisionProblem, check_problem, check_selection,
  SelectionStatus, resolved, needs_information, no_admissible_candidate, M1SelectionResult,
  Decision,
}
use atlas_py.Problem.Select.{
  scoped_candidates, has_unknown, check_candidates, co_optimal, select_result, new_selection,
  choose, select_m1,
}
use atlas_py.Problem.Validate.{
  from_pairs, check_unresolved, is_optimum, same_set, check_costs, check_resolved, validate_known,
  validate_outcome,
}
use atlas_py.Problem.Costs.{
  costs, prices-costs, is_empty-true_candidates, distinct-keys-costs, co_optimal_inhabited,
}
use atlas_py.Problem.Optimality.{
  lowest, choose-cons, new_selection-unresolved, distinct-scoped_candidates,
}

put_absent :
    (d : Dict ℤ) (k : String) (v : ℤ) → contains (keys d) k ≡ false → put d k v ≡ d ++ (k, v) ∷ []
unfolding put contains
put_absent [] k v h = refl
put_absent ((j, w) ∷ d) k v h = ground (arith, put_absent d k v)

absent_of_distinct :
    (d : Dict ℤ) (k : String) (v : ℤ) (ps : Dict ℤ)
    → distinct (keys (d ++ (k, v) ∷ ps)) ≡ true
    → contains (keys d) k ≡ false
unfolding distinct contains
absent_of_distinct [] k v ps h = refl
absent_of_distinct ((j, w) ∷ d) k v ps h =
    ground (arith, absent_of_distinct d k v ps, contains_later d k v ps, eq_iff j k)
  where
    contains_later :
        (e : Dict ℤ) (i : String) (u : ℤ) (qs : Dict ℤ)
        → contains (keys (e ++ (i, u) ∷ qs)) i ≡ true
    contains_later [] i u qs = ground (arith, eq_iff i i)
    contains_later (f ∷ e) i u qs = ground (arith, contains_later e i u qs)

-- Where no key occurs twice the dictionary is the list of pairs.
from_pairs-append : (d ps : Dict ℤ) → distinct (keys (d ++ ps)) ≡ true → from_pairs d ps ≡ d ++ ps
unfolding from_pairs
from_pairs-append d [] h = rw append-nil
from_pairs-append d ((k, v) ∷ ps) h =
    rw (put_absent d k v (absent_of_distinct d k v ps h)) (
      from_pairs-append (d ++ (k, v) ∷ []) ps (rw append_assoc h) ∙ append_assoc d ((k, v) ∷ []) ps)

-- The decision has the status, the optimum and, in some order, the co-optima of the selection.
pub record SameOutcome (d : Decision) (r : M1SelectionResult) : Type 0 where
  pub status : d.status ≡ r.status
  pub optimum : d.optimum ≡ r.optimum
  pub co_optima : same_set d.co_optima r.co_optima ≡ true

same_set-nil : (xs : List String) → same_set xs [] ≡ is_empty xs
unfolding same_set subset contains
same_set-nil [] = refl
same_set-nil (x ∷ xs) = refl

-- A list with the members and the length of one that is not empty is not empty.
not-is_empty-same_set :
    (xs ys : List String) → same_set xs ys ≡ true → is_empty ys ≡ false → is_empty xs ≡ false
not-is_empty-same_set [] [] h e = e
not-is_empty-same_set [] (y ∷ ys) h e = unfold same_set in ground arith
not-is_empty-same_set (x ∷ xs) ys h e = refl

is_optimum_iff : (o : Option ℤ) (m : ℤ) → (is_optimum o m ≡ true) ↔ (o ≡ some m)
is_optimum_iff none m = (λ h. cc, λ h. cc)
is_optimum_iff (some v) m = (λ h. ap some ((eq_ℤ_iff v m).0 h), λ h. (eq_ℤ_iff v m).1 (cc))

check_unresolved_iff :
    (id : String) (s : SelectionStatus) (message : String) (d : Decision)
    → s ≢ resolved
    → (check_unresolved s message d ≡ ok tt) ↔ SameOutcome d (select_result id s none [])
unfolding check_unresolved
check_unresolved_iff id resolved message d h = absurd (h refl)
check_unresolved_iff id needs_information message d h = (
  λ e. ground (arith, same_set-nil d.co_optima),
  λ e. ground (arith, same_set-nil d.co_optima, e.status, e.optimum, e.co_optima),
)
check_unresolved_iff id no_admissible_candidate message d h = (
  λ e. ground (arith, same_set-nil d.co_optima),
  λ e. ground (arith, same_set-nil d.co_optima, e.status, e.optimum, e.co_optima),
)

check_resolved_iff :
    (id : String) (p : String × ℤ) (ps : Dict ℤ) (d : Decision)
    → distinct (keys (p ∷ ps)) ≡ true
    → ((do check_resolved d; check_costs (from_pairs [] (p ∷ ps)) d) ≡ ok tt)
      ↔ SameOutcome d
          (select_result id resolved (some (lowest p ps)) (co_optimal (lowest p ps) (p ∷ ps)))
unfolding check_resolved check_costs
check_resolved_iff id p ps d h =
    let m = lowest p ps in
    rw (from_pairs-append [] (p ∷ ps) h) (
      λ e. ground (arith, is_optimum_iff d.optimum m),
      λ e. ground (
        arith,
        is_optimum_iff d.optimum m,
        not-is_empty-same_set d.co_optima (co_optimal m (p ∷ ps)),
        co_optimal_inhabited m (p ∷ ps) (minimum-occurs p.1 (values ps)),
        e.status,
        e.optimum,
        e.co_optima,
      ),
    )

ok_injective {ℓ} : {A : Type ℓ} {a b : A} → ok a ≡ ok b → a ≡ b
ok_injective e = cc

choose-nil : (id : String) → choose id [] ≡ ok (select_result id no_admissible_candidate none [])
unfolding choose new_selection check_selection distinct
choose-nil id = refl

validate_known_iff :
    (id : String) (o : M1Objective) (cs : List GroundedCandidate) (ps : Dict ℤ) (d : Decision)
    (r : M1SelectionResult)
    → check_candidates o cs ≡ ok tt
    → costs cs ≡ ps
    → distinct (keys ps) ≡ true
    → choose id ps ≡ ok r
    → (validate_known cs d ≡ ok tt) ↔ SameOutcome d r
unfolding validate_known
validate_known_iff id o cs [] d r checked e h chosen =
    rw (is_empty-true_candidates o cs checked, e, ok_injective (sym chosen ∙ choose-nil id))
      (check_unresolved_iff id no_admissible_candidate _ d (λ x. cc))
validate_known_iff id o cs (p ∷ ps) d r checked e h chosen =
    rw
      (
        is_empty-true_candidates o cs checked,
        prices-costs o cs checked,
        e,
        ok_injective (sym chosen ∙ choose-cons id p ps h),
      )
      (check_resolved_iff id p ps d h)

-- For a well-formed problem whose candidates in scope pass the local checks, the validation accepts
-- a decision exactly if it has the status, the optimum and, in some order, the co-optima of the
-- result that the selection returns.
pub validate_outcome_iff_select_m1 :
    (id : String) (p : GroundedDecisionProblem) (current : Bool) (d : Decision)
    (r : M1SelectionResult)
    → check_problem p ≡ ok tt
    → check_candidates p.objective (scoped_candidates current p) ≡ ok tt
    → select_m1 id p current ≡ ok r
    → (validate_outcome current p d ≡ ok tt) ↔ SameOutcome d r
unfolding validate_outcome select_m1
validate_outcome_iff_select_m1 id p current d r wf checked selected =
    let cs = scoped_candidates current p in
    elim (Bool-cases (has_unknown cs)) [
      | inl u ↦
          let e = rw (checked, u) at selected in
          rw (u, ok_injective (sym e ∙ new_selection-unresolved id))
            (check_unresolved_iff id needs_information _ d (λ x. cc))
      | inr u ↦
          let e = rw (checked, u, prices-costs p.objective cs checked) at selected in
          rw u (
            validate_known_iff id p.objective cs (costs cs) d r checked refl
              (distinct-keys-costs cs (distinct-scoped_candidates current p wf)) e)
    ]
