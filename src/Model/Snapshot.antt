-- ===== src/Model/Snapshot.antt =====
-- model.py: `Snapshot`, the record of the definitions that a point of the history fixes.
use atlas_py.Prelude.{String, Bool, Option, List, map, ◌&&◌, all, distinct}
use atlas_py.Errors.{Check, validation_error, require, ◌>>◌}
use atlas_py.Json.{Json}
use atlas_py.Values.{nonempty}

-- (id, visible scopes, enabled rules)
pub record ContextDefinition : Type 0 where
  pub id : String
  pub visible_scopes : List String
  pub enabled_rules : List String

-- (id, version, payload, supported). The canonical JSON text of the payload is the JSON value.
pub record RuleDefinition : Type 0 where
  pub id : String
  pub version : String
  pub payload : Json
  pub evaluation_supported : Bool

pub record Snapshot : Type 0 where
  pub id : String
  pub parent : Option String
  pub record_ids : List String
  pub predicate_versions : List (String × String)
  pub property_versions : List (String × String)
  pub rule_versions : List (String × String)
  pub context_ids : List String
  pub context_definitions : List ContextDefinition
  pub rule_definitions : List RuleDefinition
  pub description_ids : List String

unfoldable pub check_references : List (String × String) → Check
check_references refs = do
  require (all (λ x. nonempty x.0 && nonempty x.1) refs)
      (validation_error "snapshot semantic references require identity/version pairs")
  require (distinct (map (λ x. x.0) refs))
      (validation_error "snapshot semantic references contain a duplicate identity")

unfoldable pub check_snapshot : Snapshot → Check
check_snapshot s = do
  require (distinct s.record_ids) (validation_error "snapshot record_ids contain a duplicate")
  check_references s.predicate_versions
  check_references s.property_versions
  check_references s.rule_versions
  require (distinct s.context_ids) (validation_error "snapshot context_ids contain a duplicate")
  require (all (λ x. nonempty x.id) s.context_definitions)
      (validation_error "snapshot context definitions require exact triples")
  require (distinct (map (λ x. x.id) s.context_definitions))
      (validation_error "snapshot context definitions contain a duplicate")
  require (all (λ x. nonempty x.id && nonempty x.version) s.rule_definitions)
      (validation_error "snapshot rule definitions require exact quadruples")
  require (distinct (map (λ x. x.id) s.rule_definitions))
      (validation_error "snapshot rule definitions contain a duplicate")
  require (distinct s.description_ids)
      (validation_error "snapshot description_ids contain a duplicate")
