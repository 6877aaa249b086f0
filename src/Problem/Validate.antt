-- ===== src/Problem/Validate.antt =====
-- problem.py: `validate_persisted_decision`, which checks an outcome against its problem without
-- running the selection again.
use atlas_py.Prelude.{
  String, Bool, true, false, not, ◌&&◌, Option, none, some, List, [], ◌∷◌, map, is_none, is_some,
  is_empty, subset, length, nat_eq, if◌then◌else◌,
}
use atlas_py.Prelude.Dict.{Dict, put}
use atlas_py.Prelude.Int.{ℤ, eq_ℤ, minimum}
use atlas_py.Errors.{Check, ok, grounding_error, require, ◌>>=◌, ◌>>◌}
use atlas_py.Problem.{
  GroundedCandidate, GroundedDecisionProblem, SelectionStatus, resolved, needs_information,
  no_admissible_candidate, is_resolved, Decision,
}
use atlas_py.Problem.Select.{scoped_candidates, true_candidates, has_unknown, prices, co_optimal}

abbrev pub status_eq : SelectionStatus → SelectionStatus → Bool
status_eq resolved s = is_resolved s
status_eq needs_information needs_information = true
status_eq no_admissible_candidate no_admissible_candidate = true
status_eq _ _ = false

-- {candidate: cost for …}, a later item overwriting an earlier one of the same key
unfoldable pub from_pairs : Dict ℤ → List (String × ℤ) → Dict ℤ
from_pairs d [] = d
from_pairs d (p ∷ ps) = from_pairs (put d p.0 p.1) ps

-- An unresolved outcome shows neither an optimum nor candidates.
unfoldable pub check_unresolved : SelectionStatus → String → Decision → Check
check_unresolved expected message d =
    require (status_eq d.status expected && is_none d.optimum && is_empty d.co_optima)
      (grounding_error message)

abbrev pub is_optimum : Option ℤ → ℤ → Bool
is_optimum none m = false
is_optimum (some v) m = eq_ℤ v m

-- set(left) == right and len(left) == len(right), for a `right` without repetition
unfoldable pub same_set : List String → List String → Bool
same_set xs ys = subset xs ys && subset ys xs && nat_eq (length xs) (length ys)

unfoldable pub check_costs : Dict ℤ → Decision → Check
check_costs [] d = ok tt
check_costs (p ∷ ps) d =
    let m = minimum p.1 (map (λ q. q.1) ps) in
    do
      require (is_optimum d.optimum m)
          (grounding_error "persisted decision optimum disagrees with historical GDP")
      require (same_set d.co_optima (co_optimal m (p ∷ ps)))
          (grounding_error "persisted decision must contain exactly all historical co-optima")

-- if decision.status is not SelectionStatus.RESOLVED or decision.optimum is None or …
unfoldable pub check_resolved : Decision → Check
check_resolved d =
    require (is_resolved d.status && is_some d.optimum && not (is_empty d.co_optima))
      (grounding_error "persisted decision is not a resolved historical outcome")

-- The scoped candidates of a problem in which no truth value is UNKNOWN.
unfoldable pub validate_known : List GroundedCandidate → Decision → Check
validate_known cs d =
    if is_empty (true_candidates cs)
    then check_unresolved no_admissible_candidate
        "persisted decision disagrees with historical admissible candidates" d
    else (do
      check_resolved d
      costs ← prices (true_candidates cs)
      check_costs (from_pairs [] costs) d)

unfoldable pub validate_outcome : Bool → GroundedDecisionProblem → Decision → Check
validate_outcome current p d =
    if has_unknown (scoped_candidates current p)
    then check_unresolved needs_information
        "persisted decision disagrees with historical UNKNOWN candidates" d
    else validate_known (scoped_candidates current p) d
