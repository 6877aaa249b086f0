-- ===== src/Scope/Evaluate.antt =====
-- scope.py: `evaluate`, the run of the prescribed rule on every candidate of the manifest.
pub mod Run
pub mod Accepted
pub mod Complete
use atlas_py.Errors.{
  AtlasError, Result, admission_error, err, grounding_error, ok, refuse, require,
  unsupported_rule_error, ◌>>=◌, ◌>>◌,
}
use atlas_py.Json.{Json}
use atlas_py.Model.Discovery.{DiscoveryEvidence}
use atlas_py.Model.Grounding.{
  GroundingStatus, complete_for_declared_scope, incomplete, invalid, GroundingResult,
}
use atlas_py.Model.Scope.{
  DecisionGrounding, DecisionScope, GroundingObservation, check_grounding, check_observation,
  current,
}
use atlas_py.Prelude.{
  Bool, List, Option, String, [], any, false, if◌then◌else◌, is_empty, is_some, none, some, true,
  ◌∷◌,
}
use atlas_py.Prelude.Dict.{has, put}
use atlas_py.Problem.Access.{decision_scope}
use atlas_py.Rules.Ground.{ground}
use atlas_py.Scope.{validate_scope_environment}
use atlas_py.Scope.Discovery.{discover_relation}
use atlas_py.Scope.Validate.{compute_completeness}
use atlas_py.Store.{Store, check_open}

-- str(exc), for a GroundingError or an error of a class below it
unfoldable pub grounding_message : AtlasError → Option String
grounding_message (grounding_error m) = some m
grounding_message (unsupported_rule_error m) = some m
grounding_message _ = none

-- `None if evidence.included else "excluded_by_context"`
abbrev pub exclusion_of : DiscoveryEvidence → Option String
exclusion_of e = if is_empty e.included then some "excluded_by_context" else none

unfoldable pub checked_observation : GroundingObservation → Result GroundingObservation
checked_observation o = do check_observation o; ok o

abbrev pub observation_of : String → DiscoveryEvidence → GroundingResult → GroundingObservation
observation_of candidate e r = record {
  candidate = candidate;
  traversed = true;
  truth = some r.truth;
  grounding_result = some r;
  exclusion_reason = exclusion_of e;
  structural_error = none;
  discovery_evidence = some e;
}

abbrev pub failed_observation : String → String → GroundingObservation
failed_observation candidate message = record {
  candidate = candidate;
  traversed = true;
  truth = none;
  grounding_result = none;
  exclusion_reason = none;
  structural_error = some message;
  discovery_evidence = none;
}

-- The `except GroundingError` clause.
unfoldable pub recover : String → Result GroundingObservation → Result GroundingObservation
recover candidate (ok o) = ok o
recover candidate (err e) = elim (grounding_message e) [
  | none ↦ err e
  | some message ↦ checked_observation (failed_observation candidate message)
]

-- `invalid` is set exactly when an observation has a structural error.
unfoldable pub run_status : List GroundingObservation → GroundingStatus
run_status os =
    if any (λ o. is_some o.structural_error) os then invalid else complete_for_declared_scope

abbrev pub run_of : DecisionScope → List GroundingObservation → DecisionGrounding
run_of scope os = record {
  scope_id = scope.id;
  observations = os;
  status = run_status os;
  interrupted = false;
  pruned = false;
  schema = current;
}

unfoldable pub status_is : GroundingStatus → GroundingStatus → Bool
status_is complete_for_declared_scope complete_for_declared_scope = true
status_is incomplete incomplete = true
status_is invalid invalid = true
status_is _ _ = false

unfoldable pub the_prescribed_rule : List String → Result String
the_prescribed_rule (r ∷ []) = ok r
the_prescribed_rule _ = err (grounding_error "M1c.1 requires exactly one prescribed rule")

-- self.decision_groundings[scope.id.value] = grounding
abbrev pub with_grounding : Store → String → DecisionGrounding → Store
with_grounding s ident g = record s { decision_groundings = put s.decision_groundings ident g }

module _ (digest : Json → String) where
  -- The `try` block.
  unfoldable pub observe : Store → DecisionScope → String → String → Result GroundingObservation
  observe s scope rule candidate = do
    e ← discover_relation s scope candidate
    r ←
        ground digest s rule (("candidate", candidate) ∷ ("request", scope.request) ∷ [])
          scope.snapshot scope.context
    checked_observation (observation_of candidate e r)

  unfoldable pub observe_each :
      Store → DecisionScope → String → List String → Result (List GroundingObservation)
  observe_each s scope rule [] = ok []
  observe_each s scope rule (c ∷ cs) = do
    o ← recover c (observe s scope rule c)
    os ← observe_each s scope rule cs
    ok (o ∷ os)

  -- The part of `evaluate` after the runs.
  unfoldable pub conclude_run : Store → DecisionScope → DecisionGrounding → Result DecisionGrounding
  conclude_run s scope g = do
    check_grounding g
    computed ← compute_completeness digest s scope g
    require (status_is computed g.status)
        (grounding_error "evaluated grounding status is inconsistent")
    ok g

  unfoldable pub evaluate : Store → DecisionScope → Result DecisionGrounding
  evaluate s scope = do
    validate_scope_environment s scope
    rule ← the_prescribed_rule scope.manifest.prescribed_rule_ids
    os ← observe_each s scope rule scope.manifest.candidate_description_ids
    conclude_run s scope (run_of scope os)

  -- Store.ground_decision_scope
  unfoldable pub ground_decision_scope : Store → String → Result DecisionGrounding
  ground_decision_scope s ident = do scope ← decision_scope s ident; evaluate s scope

  -- Store.evaluate_decision_scope: the store afterwards, and the grounding
  unfoldable pub evaluate_decision_scope : Store → String → Result (Store × DecisionGrounding)
  evaluate_decision_scope s ident = do
    check_open s
    scope ← decision_scope s ident
    refuse (has s.decision_groundings scope.id)
        (admission_error "decision scope grounding already exists")
    g ← evaluate s scope
    ok (with_grounding s scope.id g, g)
