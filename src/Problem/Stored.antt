-- ===== src/Problem/Stored.antt =====
-- problem.py: `validate_persisted_grounded_decision_problem`, which reads the fields of a stored
-- problem against its scope and its grounding; and what store.py does with stored problems and
-- decisions: `explain_m1` and `status_of`.
pub mod Status
use atlas_py.Errors.{
  AtlasError, Check, Result, attribute_error, err, expect, grounding_error, ok, out_of_fuel, refuse,
  require, stop_iteration, validation_error, ◌>>=◌, ◌>>◌,
}
use atlas_py.Json.{Json}
use atlas_py.Model.Grounding.{EvaluationTruth, GroundingResult, truth_eq}
use atlas_py.Model.Scope.{DecisionGrounding, DecisionScope, GroundingObservation, is_current}
use atlas_py.Model.Snapshot.{RuleDefinition, Snapshot}
use atlas_py.Prelude.{
  Bool, List, Option, String, [], any, false, if◌then◌else◌, is_some, keep, none, some, true, ◌&&◌,
  ◌==◌, ◌∷◌,
}
use atlas_py.Prelude.Dict.{get, has}
use atlas_py.Prelude.Texts.{◌<+>◌}
use atlas_py.Problem.{
  ArtifactStatus, Decision, GroundedCandidate, GroundedDecisionProblem, ObjectiveValue,
  candidate_ids,
}
use atlas_py.Problem.Access.{decision}
use atlas_py.Problem.Build.{
  Environment, checked_objective, cost_objective, is_priced, require_complete, the_m1_rule,
}
use atlas_py.Problem.Equality.{objective_eq, result_eq, same_option}
use atlas_py.Problem.Explain.{DecisionExplanation, explain_m1}
use atlas_py.Problem.Persisted.{scope_semantics, validate_persisted_decision}
use atlas_py.Problem.Select.{matches_objective}
use atlas_py.Problem.Support.{objective_version, scope_context, validate_support}
use atlas_py.Rules.Reads.{is_isolated}
use atlas_py.Scope.{validate_scope_environment}
use atlas_py.Scope.Validate.{compute_completeness, observed_ids}
use atlas_py.Store.{Store, check_open, open_snapshot, subscript}
use atlas_py.Store.Dependencies.{decision_dependency_closure}
use atlas_py.Store.View.{snapshot_descends_from, visible_supersessions}
use atlas_py.Values.{same_texts}

unfoldable pub source_of :
    Option DecisionScope → Option DecisionGrounding → Result (DecisionScope × DecisionGrounding)
source_of (some scope) (some grounding) = ok (scope, grounding)
source_of _ _ =
    err (grounding_error "grounded decision problem references an invalid source grounding")

abbrev pub rule_disagrees : AtlasError
rule_disagrees =
    grounding_error "persisted grounded decision problem rule disagrees with the manifest"

-- The one definition of the rule in the snapshot.
unfoldable pub the_definition : List RuleDefinition → Result RuleDefinition
the_definition (d ∷ []) = ok d
the_definition _ = err rule_disagrees

unfoldable pub check_rule : Store → GroundedDecisionProblem → String → Snapshot → Check
check_rule s p rule snapshot = do
  definition ← the_definition (keep (λ x. x.id == rule) snapshot.rule_definitions)
  require (p.rule_id == rule) rule_disagrees
  active ← subscript s.rules rule
  require (definition.version == active.version)
      (grounding_error "historical rule version is not active")

unfoldable pub check_priced :
    Store
    → Environment
    → GroundedDecisionProblem
    → GroundedCandidate
    → Option ObjectiveValue
    → Check
check_priced s env p c none =
    err (grounding_error ("TRUE candidate has no objective value: " <+> c.candidate))
check_priced s env p c (some o) = do
  require (matches_objective p.objective o) (
      grounding_error
        ("persisted objective value disagrees with the problem objective: " <+> c.candidate))
  validate_support s c.candidate p.objective (some o) env.snapshot env.visible env.modern

-- truth is truth, on an observation that may have none
unfoldable pub has_truth : EvaluationTruth → Option EvaluationTruth → Bool
has_truth truth none = false
has_truth truth (some t) = truth_eq truth t

unfoldable pub has_result : GroundingResult → Option GroundingResult → Bool
has_result r none = false
has_result r (some r') = result_eq r r'

-- The body of the loop over the candidates and their observations.
unfoldable pub check_pair :
    Store → Environment → GroundedDecisionProblem → GroundedCandidate → GroundingObservation → Check
check_pair s env p c o = do
  require
      (has_truth c.truth o.truth
        && has_result c.grounding_result o.grounding_result
        && same_option ◌==◌ c.exclusion_reason o.exclusion_reason)
      (grounding_error "persisted candidate disagrees with its historical grounding observation")
  (if is_priced env.modern c.truth c.exclusion_reason
      then check_priced s env p c c.objective_value
      else refuse (is_some c.objective_value)
          (grounding_error ("non-TRUE candidate has an objective value: " <+> c.candidate)))

unfoldable pub check_pairs :
    Store
    → Environment
    → GroundedDecisionProblem
    → List GroundedCandidate
    → List GroundingObservation
    → Check
check_pairs s env p (c ∷ cs) (o ∷ os) = do check_pair s env p c o; check_pairs s env p cs os
check_pairs s env p _ _ = ok tt

-- except (AtlasError, KeyError, TypeError, ValueError)
unfoldable pub is_caught : AtlasError → Bool
is_caught (attribute_error name) = false
is_caught stop_iteration = false
is_caught out_of_fuel = false
is_caught _ = true

unfoldable pub invalid_unless : Result ArtifactStatus → Result ArtifactStatus
invalid_unless (ok status) = ok status
invalid_unless (err e) = if is_caught e then ok ArtifactStatus.invalid else err e

module _ (digest : Json → String) where
  -- The validation against the scope and its grounding.
  unfoldable pub validate_from :
      Store → GroundedDecisionProblem → DecisionScope → DecisionGrounding → Check
  validate_from s p scope grounding = do
    validate_scope_environment s scope
    require
        (p.snapshot == scope.snapshot
          && p.context == scope.context
          && p.request == scope.request
          && p.manifest_version == scope.manifest.manifest_version)
        (grounding_error "persisted grounded decision problem environment disagrees with scope")
    require_complete grounding.status
    computed ← compute_completeness digest s scope grounding
    require_complete computed
    rule ← the_m1_rule scope.manifest.prescribed_rule_ids
    snapshot ← open_snapshot s scope.snapshot
    check_rule s p rule snapshot
    version ← objective_version snapshot
    expected ← checked_objective (cost_objective version)
    require (objective_eq p.objective expected)
        (grounding_error "persisted objective definition disagrees with the historical snapshot")
    require
        (same_texts (candidate_ids p.candidates) scope.manifest.candidate_description_ids
          && same_texts (observed_ids grounding.observations)
              scope.manifest.candidate_description_ids)
        (grounding_error
          "persisted candidates do not exactly match the manifest and grounding order")
    historical ← scope_context s scope
    check_pairs s
        (record {
          modern = is_current grounding.schema;
          snapshot = snapshot;
          visible = historical.1;
          version = version;
        })
        p p.candidates grounding.observations

  -- validate_persisted_grounded_decision_problem
  unfoldable pub validate_stored : Store → GroundedDecisionProblem → Check
  validate_stored s p = do
    check_open s
    found ← source_of (get s.decision_scopes p.scope_id) (get s.decision_groundings p.scope_id)
    validate_from s p found.0 found.1

  -- Store.explain_m1
  unfoldable pub explain_stored : Store → String → Result DecisionExplanation
  explain_stored s ident = do
    d ← decision s ident
    p ←
        expect "decision references an absent historical grounded decision problem"
          (get s.grounded_decision_problems d.source)
    validate_stored s p
    validate_persisted_decision s d none
    explain_m1 s ident d (scope_semantics none (get s.decision_groundings p.scope_id))

  -- The `try` block of `status_of`.
  unfoldable pub status_known : Store → Decision → String → Result ArtifactStatus
  status_known s d reference = do
    p ← subscript s.grounded_decision_problems d.source
    validate_stored s p
    validate_persisted_decision s d none
    source ← open_snapshot s p.snapshot
    descends ← snapshot_descends_from s reference source.id
    require descends
        (validation_error "reference snapshot is not the decision snapshot or a descendant")
    dependencies ← decision_dependency_closure s p
    visible ← visible_supersessions s reference
    ok (if any (has visible) dependencies then ArtifactStatus.stale else ArtifactStatus.current)

  unfoldable pub status_at : Store → Option Decision → String → Result ArtifactStatus
  status_at s none reference = ok ArtifactStatus.invalid
  status_at s (some d) reference = invalid_unless (status_known s d reference)

  -- Store.status_of, whose reference is required
  unfoldable pub status_of : Store → String → Option String → Result ArtifactStatus
  status_of s ident none = do
    check_open s
    err (validation_error "status_of requires an explicit reference snapshot")
  status_of s ident (some reference) = do
    check_open s
    (if has s.snapshots reference
        then status_at s (get s.decisions ident) reference
        else (if is_isolated s "snapshot" reference
            then ok ArtifactStatus.invalid
            else err (grounding_error "unknown reference snapshot")))
