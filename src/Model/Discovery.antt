-- ===== src/Model/Discovery.antt =====
-- model.py: the certificate of a relation discovery.
use atlas_py.Prelude.{String, ◌&&◌, List, map, ◌==◌, any, contains, distinct, subset}
use atlas_py.Errors.{Check, validation_error, require, refuse, ◌>>◌}
use atlas_py.Values.{nonempty}
use atlas_py.Model.Grounding.{is_polarity}

pub data DiscoveryExclusionReason : Type 0 where
  outside_context : DiscoveryExclusionReason

pub record DiscoveryQuery : Type 0 where
  pub kind : String
  pub predicate : String
  pub version : String
  pub participants : List String
  pub polarity : String

unfoldable pub check_query : DiscoveryQuery → Check
check_query q = do
  require (q.kind == "relation") (validation_error "unsupported discovery query kind")
  require (nonempty q.version) (validation_error "invalid discovery query identity")
  require (is_polarity q.polarity) (validation_error "invalid discovery query polarity")

pub record DiscoveryExclusion : Type 0 where
  pub knowledge_id : String
  pub reason : DiscoveryExclusionReason

pub record DiscoveryEvidence : Type 0 where
  pub schema : String
  pub query : DiscoveryQuery
  pub found : List String
  pub included : List String
  pub excluded : List DiscoveryExclusion

abbrev pub excluded_ids : DiscoveryEvidence → List String
excluded_ids e = map (λ x. x.knowledge_id) e.excluded

abbrev pub evidence_schema : String
evidence_schema = "atlas.core-v1.discovery-evidence/1"

unfoldable pub check_evidence : DiscoveryEvidence → Check
check_evidence e = do
  require (e.schema == evidence_schema) (validation_error "unsupported discovery evidence schema")
  require (distinct e.found) (validation_error "discovery found contains a duplicate")
  require (distinct e.included) (validation_error "discovery included contains a duplicate")
  require (distinct (excluded_ids e)) (validation_error "discovery exclusions contain a duplicate")
  require (subset e.included e.found && subset (excluded_ids e) e.found)
      (validation_error "discovery included/excluded ids must be found")
  refuse (any (contains (excluded_ids e)) e.included)
      (validation_error "discovery included and excluded ids overlap")
