-- ===== src/Problem/Select.antt =====
-- problem.py: `_select_m1`, the selection of the cheapest admissible candidates.
use atlas_py.Prelude.{
  String, Bool, not, ◌&&◌, ◌||◌, Option, none, some, List, [], ◌∷◌, map, ◌==◌, is_none, any, keep,
  if◌then◌else◌,
}
use atlas_py.Prelude.Int.{ℤ, eq_ℤ, minimum}
use atlas_py.Errors.{
  Check, Result, ok, err, validation_error, attribute_error, require, ◌>>=◌, ◌>>◌,
}
use atlas_py.Model.Grounding.{EvaluationTruth, holds, is_true, is_unknown}
use atlas_py.Problem.{
  ObjectiveValue, M1Objective, GroundedCandidate, GroundedDecisionProblem, SelectionStatus,
  resolved, needs_information, no_admissible_candidate, M1SelectionResult, check_selection,
}

-- not current_scope_semantics or candidate.exclusion_reason is None
abbrev pub in_scope : Bool → GroundedCandidate → Bool
in_scope current c = not current || is_none c.exclusion_reason

unfoldable pub scoped_candidates : Bool → GroundedDecisionProblem → List GroundedCandidate
scoped_candidates current p = keep (in_scope current) p.candidates

unfoldable pub true_candidates : List GroundedCandidate → List GroundedCandidate
true_candidates cs = keep (λ c. is_true c.truth) cs

unfoldable pub has_unknown : List GroundedCandidate → Bool
has_unknown cs = any (λ c. is_unknown c.truth) cs

-- The property, version and status of an objective value are those of the problem's objective.
unfoldable pub matches_objective : M1Objective → ObjectiveValue → Bool
matches_objective o v =
    v.property == o.property && v.version == o.version && v.epistemic_status == o.epistemic_status

-- The body of the validation loop, for one candidate.
unfoldable pub check_local : M1Objective → EvaluationTruth → Option ObjectiveValue → Check
unfolding matches_objective
check_local o holds none = err (validation_error "TRUE candidate has no exact M1 objective value")
check_local o holds (some v) =
    require (matches_objective o v)
      (validation_error "TRUE candidate objective value disagrees with problem objective")
check_local o _ none = ok tt
check_local o _ (some v) =
    err (validation_error "non-TRUE candidate must not have an M1 objective value")

unfoldable pub check_candidates : M1Objective → List GroundedCandidate → Check
unfolding check_local
check_candidates o [] = ok tt
check_candidates o (c ∷ cs) = do check_local o c.truth c.objective_value; check_candidates o cs

-- candidate.objective_value.value.value, with the candidate that it belongs to
unfoldable pub price : GroundedCandidate → Result (String × ℤ)
price c = elim c.objective_value [
  | none ↦ err (attribute_error "'NoneType' object has no attribute 'value'")
  | some v ↦ ok (c.candidate, v.value)
]

unfoldable pub prices : List GroundedCandidate → Result (List (String × ℤ))
unfolding price
prices [] = ok []
prices (c ∷ cs) = do p ← price c; rest ← prices cs; ok (p ∷ rest)

abbrev pub select_result : String → SelectionStatus → Option ℤ → List String → M1SelectionResult
select_result id status optimum co_optima = record {
  source = id;
  status = status;
  optimum = optimum;
  co_optima = co_optima;
}

-- M1SelectionResult(id, status, optimum, co_optima)
unfoldable pub new_selection :
    String → SelectionStatus → Option ℤ → List String → Result M1SelectionResult
new_selection id status optimum co_optima = do
  check_selection (select_result id status optimum co_optima)
  ok (select_result id status optimum co_optima)

-- The candidates whose cost is the optimum, in their order.
unfoldable pub co_optimal : ℤ → List (String × ℤ) → List String
co_optimal m ps = map (λ p. p.0) (keep (λ p. eq_ℤ p.1 m) ps)

unfoldable pub choose : String → List (String × ℤ) → Result M1SelectionResult
choose id [] = new_selection id no_admissible_candidate none []
choose id (p ∷ ps) =
    let m = minimum p.1 (map (λ q. q.1) ps) in
    new_selection id resolved (some m) (co_optimal m (p ∷ ps))

unfoldable pub select_m1 : String → GroundedDecisionProblem → Bool → Result M1SelectionResult
select_m1 id p current = do
  check_candidates p.objective (scoped_candidates current p)
  if has_unknown (scoped_candidates current p)
      then new_selection id needs_information none []
      else (do costs ← prices (true_candidates (scoped_candidates current p)); choose id costs)
