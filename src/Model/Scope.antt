-- ===== src/Model/Scope.antt =====
-- model.py: decision scopes, their manifests, and the observable grounding runs.
use atlas_py.Prelude.{
  String, Bool, true, false, not, ◌&&◌, ◌||◌, Option, none, some, List, map, ◌==◌, is_none, is_some,
  distinct,
}
use atlas_py.Errors.{Check, validation_error, require, refuse, ◌>>◌}
use atlas_py.Values.{nonempty}
use atlas_py.Model.Grounding.{EvaluationTruth, GroundingResult, GroundingStatus, truth_eq}
use atlas_py.Model.Discovery.{DiscoveryEvidence}

-- DECISION_SCOPE_LEGACY_SCHEMA and DECISION_SCOPE_CURRENT_SCHEMA, and those of groundings
pub data Schema : Type 0 where
  legacy current : Schema

abbrev pub is_current : Schema → Bool
is_current legacy = false
is_current current = true

pub record GroundingManifest : Type 0 where
  pub manifest_version : String
  pub candidate_description_ids : List String
  pub prescribed_rule_ids : List String

-- SUPPORTED_MANIFEST_VERSIONS
abbrev pub is_supported_version : String → Bool
is_supported_version v = v == "m1-grounding/1"

unfoldable pub check_manifest : GroundingManifest → Check
check_manifest m = do
  require (nonempty m.manifest_version) (validation_error "manifest requires a non-empty version")
  require (is_supported_version m.manifest_version)
      (validation_error "unsupported grounding manifest version")
  require (distinct m.candidate_description_ids)
      (validation_error "manifest contains a duplicate candidate")
  require (distinct m.prescribed_rule_ids) (validation_error "manifest contains a duplicate rule")

pub record DecisionScope : Type 0 where
  pub id : String
  pub snapshot : String
  pub context : String
  pub intention : String
  pub request : String
  pub manifest : GroundingManifest
  pub schema : Schema

pub record GroundingObservation : Type 0 where
  pub candidate : String
  pub traversed : Bool
  pub truth : Option EvaluationTruth
  pub grounding_result : Option GroundingResult
  pub exclusion_reason : Option String
  pub structural_error : Option String
  pub discovery_evidence : Option DiscoveryEvidence

-- value is None or value
abbrev pub absent_or_text : Option String → Bool
absent_or_text none = true
absent_or_text (some s) = nonempty s

-- truth is result.truth
abbrev pub agrees : Option EvaluationTruth → Option GroundingResult → Bool
agrees t none = true
agrees none (some r) = not true
agrees (some t) (some r) = truth_eq t r.truth

unfoldable pub check_observation : GroundingObservation → Check
check_observation o = do
  require (absent_or_text o.exclusion_reason && absent_or_text o.structural_error)
      (validation_error "invalid grounding observation reason")
  refuse (is_some o.grounding_result && is_some o.structural_error)
      (validation_error "grounding result cannot accompany a structural error")
  refuse (is_some o.structural_error && is_some o.truth)
      (validation_error "structural error cannot claim a truth value")
  refuse (not o.traversed && (is_some o.grounding_result || is_some o.truth))
      (validation_error "non-traversed observation cannot claim a grounding result")
  refuse (o.traversed && is_none o.grounding_result && is_none o.structural_error)
      (validation_error "traversed observation requires a result or structural error")
  require (agrees o.truth o.grounding_result)
      (validation_error "observation truth disagrees with grounding result")

pub record DecisionGrounding : Type 0 where
  pub scope_id : String
  pub observations : List GroundingObservation
  pub status : GroundingStatus
  pub interrupted : Bool
  pub pruned : Bool
  pub schema : Schema

unfoldable pub check_grounding : DecisionGrounding → Check
check_grounding g =
    require (distinct (map (λ o. o.candidate) g.observations))
      (validation_error "duplicate grounding observation")
