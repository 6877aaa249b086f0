-- ===== src/Problem/Build.antt =====
-- problem.py: `build_grounded_decision_problem`, which makes the problem of a complete grounding,
-- and its admission in store.py.
pub mod Rule
pub mod Pairs
pub mod Accepted
pub mod Admitted
pub mod Growth
use atlas_py.Errors.{
  AtlasError, Check, Result, admission_error, err, grounding_error, ok, refuse, require,
  validation_error, ◌>>=◌, ◌>>◌,
}
use atlas_py.Json.{Json}
use atlas_py.Model.Grounding.{
  EvaluationTruth, GroundingResult, GroundingStatus, complete_for_declared_scope, is_complete,
  is_true,
}
use atlas_py.Model.Knowledge.{property}
use atlas_py.Model.Scope.{DecisionGrounding, DecisionScope, GroundingObservation, is_current}
use atlas_py.Model.Snapshot.{Snapshot}
use atlas_py.Prelude.{
  Bool, List, Option, String, [], if◌then◌else◌, is_none, none, not, some, ◌&&◌, ◌==◌, ◌||◌, ◌∷◌,
}
use atlas_py.Prelude.Dict.{Dict, get, has, put}
use atlas_py.Problem.{
  GroundedCandidate, GroundedDecisionProblem, M1Objective, ObjectiveValue, check_candidate,
  check_objective, check_problem,
}
use atlas_py.Problem.Access.{decision_grounding, decision_scope}
use atlas_py.Problem.Equality.{problem_eq}
use atlas_py.Problem.Support.{objective_for_true, objective_version, scope_context}
use atlas_py.Rules.Reads.{candidates}
use atlas_py.Scope.{validate_scope_environment}
use atlas_py.Scope.Validate.{compute_completeness}
use atlas_py.Store.{Store, check_open}

unfoldable pub the_m1_rule : List String → Result String
the_m1_rule (r ∷ []) = ok r
the_m1_rule _ = err (grounding_error "M1 requires exactly one prescribed historical rule")

unfoldable pub require_complete : GroundingStatus → Check
require_complete status =
    require (is_complete status)
      (grounding_error "decision grounding is not complete for its declared scope")

-- {observation.candidate: observation for observation in observations}
unfoldable pub observations_by :
    Dict GroundingObservation → List GroundingObservation → Dict GroundingObservation
observations_by d [] = d
observations_by d (o ∷ os) = observations_by (put d o.candidate o) os

unfoldable pub checked_candidate : GroundedCandidate → Result GroundedCandidate
checked_candidate c = do check_candidate c; ok c

-- A cost is asked for.
abbrev pub is_priced : Bool → EvaluationTruth → Option String → Bool
is_priced modern truth excluded = is_true truth && (not modern || is_none excluded)

-- The environment that the candidates are built in.
pub record Environment : Type 0 where
  pub modern : Bool
  pub snapshot : Snapshot
  pub visible : List String
  pub version : String

unfoldable pub objective_if : Store → Environment → String → Bool → Result (Option ObjectiveValue)
objective_if s env candidate priced =
    if priced
    then (do
      o ← objective_for_true s candidate env.snapshot env.visible env.version env.modern
      ok (some o))
    else ok none

-- The candidate of an observation with a result.
unfoldable pub candidate_of :
    Store
    → Environment
    → String
    → GroundingObservation
    → Option EvaluationTruth
    → GroundingResult
    → Result GroundedCandidate
candidate_of s env candidate o none r =
    err (validation_error "invalid grounded candidate identity or truth")
candidate_of s env candidate o (some truth) r = do
  objective ← objective_if s env candidate (is_priced env.modern truth o.exclusion_reason)
  checked_candidate (record {
    candidate = candidate;
    truth = truth;
    grounding_result = r;
    exclusion_reason = o.exclusion_reason;
    objective_value = objective;
  })

abbrev pub uncovered : AtlasError
uncovered = grounding_error "grounding does not contain the complete manifest candidate"

unfoldable pub candidate_from :
    Store → Environment → String → Option GroundingObservation → Result GroundedCandidate
candidate_from s env candidate none = err uncovered
candidate_from s env candidate (some o) = do
  require o.traversed uncovered
  elim o.grounding_result [
    | none ↦ err uncovered
    | some r ↦ candidate_of s env candidate o o.truth r
  ]

unfoldable pub build_candidates :
    Store → Environment → Dict GroundingObservation → List String → Result (List GroundedCandidate)
build_candidates s env observations [] = ok []
build_candidates s env observations (c ∷ cs) = do
  candidate ← candidate_from s env c (get observations c)
  rest ← build_candidates s env observations cs
  ok (candidate ∷ rest)

-- M1Objective(PropertyId("cost"), version, "minimize", "exact")
abbrev pub cost_objective : String → M1Objective
cost_objective version = record {
  property = "cost";
  version = version;
  direction = "minimize";
  epistemic_status = "exact";
}

unfoldable pub checked_objective : M1Objective → Result M1Objective
checked_objective o = do check_objective o; ok o

unfoldable pub checked_problem : GroundedDecisionProblem → Result GroundedDecisionProblem
checked_problem p = do check_problem p; ok p

abbrev pub problem_of :
    DecisionScope → String → M1Objective → List GroundedCandidate → GroundedDecisionProblem
problem_of scope rule objective candidates = record {
  scope_id = scope.id;
  snapshot = scope.snapshot;
  context = scope.context;
  request = scope.request;
  manifest_version = scope.manifest.manifest_version;
  rule_id = rule;
  objective = objective;
  candidates = candidates;
  grounding_status = complete_for_declared_scope;
}

-- self.grounded_decision_problems[ident.value] = problem
abbrev pub with_problem : Store → String → GroundedDecisionProblem → Store
with_problem s ident p = record s {
  grounded_decision_problems = put s.grounded_decision_problems ident p;
}

module _ (digest : Json → String) where
  -- The construction from the scope and its grounding.
  unfoldable pub build_from :
      Store → DecisionScope → DecisionGrounding → Result GroundedDecisionProblem
  build_from s scope grounding = do
    require (grounding.scope_id == scope.id)
        (grounding_error "scope and grounding identities do not match")
    validate_scope_environment s scope
    require_complete grounding.status
    computed ← compute_completeness digest s scope grounding
    require_complete computed
    historical ← scope_context s scope
    rule ← the_m1_rule scope.manifest.prescribed_rule_ids
    version ← objective_version historical.0
    candidates ←
        build_candidates s
          (record {
            modern = is_current grounding.schema;
            snapshot = historical.0;
            visible = historical.1;
            version = version;
          })
          (observations_by [] grounding.observations) scope.manifest.candidate_description_ids
    objective ← checked_objective (cost_objective version)
    checked_problem (problem_of scope rule objective candidates)

  -- build_grounded_decision_problem, and Store.ground_decision_problem
  unfoldable pub build_problem : Store → String → Result GroundedDecisionProblem
  build_problem s ident = do
    check_open s
    scope ← decision_scope s ident
    grounding ← decision_grounding s scope.id
    build_from s scope grounding

  -- Store.admit_grounded_decision_problem: the store afterwards
  unfoldable pub admit_problem : Store → String → GroundedDecisionProblem → Result Store
  admit_problem s ident p = do
    check_open s
    refuse (has s.grounded_decision_problems ident)
        (admission_error "duplicate grounded decision problem identity")
    expected ← build_problem s p.scope_id
    require (problem_eq p expected)
        (validation_error "grounded decision problem is not coherent with its historical sources")
    ok (with_problem s ident p)
