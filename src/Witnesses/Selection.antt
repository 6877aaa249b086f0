-- ===== src/Witnesses/Selection.antt =====
-- A decision problem with four candidates: two of them cheapest, one dearer, one refused.
use atlas_py.Prelude.{
  String, ◌≡◌, ◌↔◌, refl, ◌⊎◌, Bool, true, false, Option, none, some, List, [], ◌∷◌,
}
use atlas_py.Prelude.Int.{ℤ, pos, negsuc}
use atlas_py.Errors.{ok}
use atlas_py.Model.Grounding.{
  EvaluationTruth, holds, fails, unknown, GroundingResult, complete_for_declared_scope,
}
use atlas_py.Problem.{
  ObjectiveValue, M1Objective, GroundedCandidate, GroundedDecisionProblem, SelectionStatus,
  resolved, needs_information, M1SelectionResult, Decision, check_problem,
}
use atlas_py.Problem.Select.{scoped_candidates, select_m1, select_result}
use atlas_py.Problem.Validate.{validate_outcome}
use atlas_py.Problem.Optimality.{Selects, select_m1-Selects}
use atlas_py.Problem.Agreement.{SameOutcome, validate_outcome_iff_select_m1}

abbrev result_with : EvaluationTruth → GroundingResult
result_with truth = record {
  rule_id = "r";
  rule_version = "1";
  bindings = [];
  truth = truth;
  conclusion = none;
  effective_dependencies = [];
  missing_reads = [];
  ambiguous_reads = [];
  snapshot = "s";
  context = "c";
  grounding_evidence = "e";
}

abbrev pub priced : String → ℤ → GroundedCandidate
priced name cost = record {
  candidate = name;
  truth = holds;
  grounding_result = result_with holds;
  exclusion_reason = none;
  objective_value = some (record {
    value = cost;
    knowledge_id = "k";
    property = "cost";
    version = "1";
    epistemic_status = "exact";
  });
}

abbrev pub unpriced : String → EvaluationTruth → GroundedCandidate
unpriced name truth = record {
  candidate = name;
  truth = truth;
  grounding_result = result_with truth;
  exclusion_reason = none;
  objective_value = none;
}

abbrev problem_of : List GroundedCandidate → GroundedDecisionProblem
problem_of cs = record {
  scope_id = "scope";
  snapshot = "s";
  context = "c";
  request = "q";
  manifest_version = "m1-grounding/1";
  rule_id = "r";
  objective = record {
    property = "cost";
    version = "1";
    direction = "minimize";
    epistemic_status = "exact";
  };
  candidates = cs;
  grounding_status = complete_for_declared_scope;
}

abbrev pub offers : GroundedDecisionProblem
offers =
    problem_of
      (priced "a" (pos 7) ∷ priced "b" (pos 4) ∷ unpriced "c" fails ∷ priced "d" (pos 4) ∷ [])

abbrev cheapest : M1SelectionResult
cheapest = select_result "p" resolved (some (pos 4)) ("b" ∷ "d" ∷ [])

abbrev pub chosen : Decision
chosen = record {
  id = "d1";
  source = "p";
  status = resolved;
  optimum = some (pos 4);
  co_optima = "d" ∷ "b" ∷ [];
}

selects_cheapest : select_m1 "p" offers true ≡ ok cheapest
unfolding select_m1 atlas_py.Problem.Select.check_candidates scoped_candidates atlas_py.Prelude.keep
    atlas_py.Problem.Select.has_unknown atlas_py.Prelude.any atlas_py.Problem.Select.prices
    atlas_py.Problem.Select.true_candidates atlas_py.Problem.Select.choose
    atlas_py.Problem.Select.new_selection atlas_py.Problem.check_selection atlas_py.Prelude.distinct
    atlas_py.Problem.Select.co_optimal atlas_py.Prelude.Int.minimum
selects_cheapest = refl

selects_negative :
    select_m1 "p" (problem_of (priced "a" (negsuc 2) ∷ priced "b" (pos 0) ∷ [])) true
    ≡ ok (select_result "p" resolved (some (negsuc 2)) ("a" ∷ []))
unfolding select_m1 atlas_py.Problem.Select.check_candidates scoped_candidates atlas_py.Prelude.keep
    atlas_py.Problem.Select.has_unknown atlas_py.Prelude.any atlas_py.Problem.Select.prices
    atlas_py.Problem.Select.true_candidates atlas_py.Problem.Select.choose
    atlas_py.Problem.Select.new_selection atlas_py.Problem.check_selection atlas_py.Prelude.distinct
    atlas_py.Problem.Select.co_optimal atlas_py.Prelude.Int.minimum
selects_negative = refl

needs_more :
    select_m1 "p" (problem_of (priced "a" (pos 1) ∷ unpriced "b" unknown ∷ [])) true
    ≡ ok (select_result "p" needs_information none [])
unfolding select_m1 atlas_py.Problem.Select.check_candidates scoped_candidates atlas_py.Prelude.keep
    atlas_py.Problem.Select.has_unknown atlas_py.Prelude.any atlas_py.Problem.Select.new_selection
    atlas_py.Problem.check_selection atlas_py.Prelude.distinct
needs_more = refl

accepts_chosen : validate_outcome true offers chosen ≡ ok tt
unfolding validate_outcome atlas_py.Problem.Select.has_unknown atlas_py.Prelude.any
    scoped_candidates atlas_py.Prelude.keep atlas_py.Problem.Validate.validate_known
    atlas_py.Problem.Select.true_candidates atlas_py.Problem.Select.prices
    atlas_py.Problem.Validate.check_resolved atlas_py.Problem.Validate.check_costs
    atlas_py.Problem.Validate.from_pairs atlas_py.Prelude.Dict.put atlas_py.Prelude.Int.minimum
    atlas_py.Problem.Validate.same_set atlas_py.Prelude.subset atlas_py.Problem.Select.co_optimal
accepts_chosen = refl

select_m1-Selects_example :
    (r : M1SelectionResult) × (select_m1 "p" offers true ≡ ok r)
    × Selects "p" (scoped_candidates true offers) r
unfolding check_problem atlas_py.Prelude.distinct atlas_py.Problem.Select.check_candidates
    scoped_candidates atlas_py.Prelude.keep
select_m1-Selects_example = select_m1-Selects "p" offers true refl refl

validate_outcome_iff_select_m1_example :
    (validate_outcome true offers chosen ≡ ok tt) ↔ SameOutcome chosen cheapest
unfolding check_problem atlas_py.Prelude.distinct atlas_py.Problem.Select.check_candidates
    scoped_candidates atlas_py.Prelude.keep
validate_outcome_iff_select_m1_example =
    validate_outcome_iff_select_m1 "p" offers true chosen cheapest refl refl selects_cheapest
