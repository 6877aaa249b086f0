-- ===== src/Problem.antt =====
-- src/atlas/problem.py: the finite decision problem, its pure selection, the admitted decision, and
-- their constructors' checks. The proofs are in the child modules.
pub mod Select
pub mod Validate
pub mod Access
pub mod Admit
pub mod Persisted
pub mod Support
pub mod Explain
pub mod Costs
pub mod Optimality
pub mod Agreement
pub mod Equality
pub mod Build
pub mod Stored
use atlas_py.Prelude.{
  String, Bool, true, false, not, ◌&&◌, ◌||◌, Option, none, some, List, [], ◌∷◌, map, ◌==◌, is_none,
  is_some, is_empty, all, distinct,
}
use atlas_py.Prelude.Int.{ℤ}
use atlas_py.Errors.{Check, validation_error, require, refuse, ◌>>◌}
use atlas_py.Values.{nonempty}
use atlas_py.Model.Grounding.{
  EvaluationTruth, GroundingResult, GroundingStatus, is_true, truth_eq, is_complete,
}
use atlas_py.Model.Scope.{absent_or_text}

pub record ObjectiveValue : Type 0 where
  pub value : ℤ
  pub knowledge_id : String
  pub property : String
  pub version : String
  pub epistemic_status : String

unfoldable pub check_objective_value : ObjectiveValue → Check
check_objective_value v = do
  require (nonempty v.version)
      (validation_error "objective value requires an exact property reference")
  require (v.epistemic_status == "exact")
      (validation_error "M1 objective values require exact epistemic status")

pub record M1Objective : Type 0 where
  pub property : String
  pub version : String
  pub direction : String
  pub epistemic_status : String

unfoldable pub check_objective : M1Objective → Check
check_objective o = do
  require (o.property == "cost")
      (validation_error "M1 objective must use the profile cost property")
  require (nonempty o.version && o.direction == "minimize")
      (validation_error "invalid M1 objective definition")
  require (o.epistemic_status == "exact")
      (validation_error "M1 objective requires exact epistemic status")

pub record GroundedCandidate : Type 0 where
  pub candidate : String
  pub truth : EvaluationTruth
  pub grounding_result : GroundingResult
  pub exclusion_reason : Option String
  pub objective_value : Option ObjectiveValue

unfoldable pub check_candidate : GroundedCandidate → Check
check_candidate c = do
  require (truth_eq c.truth c.grounding_result.truth)
      (validation_error "grounded candidate disagrees with its grounding result")
  require (absent_or_text c.exclusion_reason)
      (validation_error "invalid candidate exclusion reason")
  refuse (not (is_true c.truth) && is_some c.objective_value)
      (validation_error "non-TRUE candidate must not require an objective value")

pub record GroundedDecisionProblem : Type 0 where
  pub scope_id : String
  pub snapshot : String
  pub context : String
  pub request : String
  pub manifest_version : String
  pub rule_id : String
  pub objective : M1Objective
  pub candidates : List GroundedCandidate
  pub grounding_status : GroundingStatus

abbrev pub candidate_ids : List GroundedCandidate → List String
candidate_ids cs = map (λ c. c.candidate) cs

unfoldable pub check_problem : GroundedDecisionProblem → Check
check_problem p = do
  require (nonempty p.manifest_version)
      (validation_error "invalid grounded decision problem manifest")
  require (is_complete p.grounding_status)
      (validation_error "grounded decision problem requires complete declared-scope grounding")
  require (distinct (candidate_ids p.candidates))
      (validation_error "grounded decision problem contains duplicate candidates")

pub data SelectionStatus : Type 0 where
  resolved needs_information no_admissible_candidate : SelectionStatus

abbrev pub is_resolved : SelectionStatus → Bool
is_resolved resolved = true
is_resolved _ = false

pub data ArtifactStatus : Type 0 where
  current stale invalid : ArtifactStatus

pub record M1SelectionResult : Type 0 where
  pub source : String
  pub status : SelectionStatus
  pub optimum : Option ℤ
  pub co_optima : List String

unfoldable pub check_selection : M1SelectionResult → Check
check_selection r = do
  require (distinct r.co_optima) (validation_error "M1 selection co-optima must be distinct")
  refuse (is_resolved r.status && (is_none r.optimum || is_empty r.co_optima))
      (validation_error "resolved M1 selection requires an optimum and co-optima")
  refuse (not (is_resolved r.status) && (is_some r.optimum || not (is_empty r.co_optima)))
      (validation_error "unresolved M1 selection must not expose an optimum")

pub record Decision : Type 0 where
  pub id : String
  pub source : String
  pub status : SelectionStatus
  pub optimum : Option ℤ
  pub co_optima : List String

-- M1SelectionResult(self.source, self.status, self.optimum, self.co_optima)
abbrev pub outcome_of : Decision → M1SelectionResult
outcome_of d = record {
  source = d.source;
  status = d.status;
  optimum = d.optimum;
  co_optima = d.co_optima;
}

unfoldable pub check_decision : Decision → Check
unfolding check_selection
check_decision d = check_selection (outcome_of d)
