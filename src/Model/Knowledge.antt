-- ===== src/Model/Knowledge.antt =====
-- model.py: descriptions, assertions, rules, contexts, supersessions and derivations.
use atlas_py.Prelude.{String, Bool, false, Option, none, List, [], ◌∷◌, map, ◌==◌, all, distinct}
use atlas_py.Errors.{Check, validation_error, require, refuse, ◌>>◌}
use atlas_py.Json.{Json}
use atlas_py.Values.{Value, text, nonempty, same_texts}

pub record Description : Type 0 where
  pub id : String
  pub label : String

-- Two descriptions are equal if their identities are.
unfoldable pub description_eq : Description → Description → Bool
description_eq a b = a.id == b.id

pub record Source : Type 0 where
  pub id : String

pub record PropertyAssertion : Type 0 where
  pub id : String
  pub description : String
  pub property : String
  pub version : String
  pub value : Value
  pub scope : String
  pub epistemic_status : String
  pub provenance : List String

unfoldable pub check_property_assertion : PropertyAssertion → Check
check_property_assertion a = do text a.version; text a.scope; text a.epistemic_status

-- `scope: object` is a text or a tuple of texts.
pub data ScopeRef : Type 0 where
  one : String → ScopeRef
  many : List String → ScopeRef

-- set(scope) if type(scope) is tuple else {scope}
abbrev pub scope_set : ScopeRef → List String
scope_set (one s) = s ∷ []
scope_set (many ss) = ss

unfoldable pub scope_eq : ScopeRef → ScopeRef → Bool
scope_eq (one a) (one b) = a == b
scope_eq (many a) (many b) = same_texts a b
scope_eq _ _ = false

pub record RelationAssertion : Type 0 where
  pub id : String
  pub predicate : String
  pub version : String
  pub participants : List String
  pub polarity : String
  pub scope : ScopeRef
  pub epistemic_status : String
  pub provenance : List String
  pub derivation_id : Option String

unfoldable pub check_relation_assertion : RelationAssertion → Check
check_relation_assertion a = do text a.version; text a.polarity; text a.epistemic_status

-- KnowledgeRecord = PropertyAssertion | RelationAssertion
pub data KnowledgeRecord : Type 0 where
  property : PropertyAssertion → KnowledgeRecord
  relation : RelationAssertion → KnowledgeRecord

abbrev pub record_id : KnowledgeRecord → String
record_id (property a) = a.id
record_id (relation a) = a.id

abbrev pub record_provenance : KnowledgeRecord → List String
record_provenance (property a) = a.provenance
record_provenance (relation a) = a.provenance

-- getattr(record, "derivation_id", None)
abbrev pub derivation_of : KnowledgeRecord → Option String
derivation_of (property a) = none
derivation_of (relation a) = a.derivation_id

pub record Rule : Type 0 where
  pub id : String
  pub version : String
  pub payload : Json
  pub evaluation_supported : Bool

pub record Context : Type 0 where
  pub id : String
  pub visible_scopes : List String
  pub enabled_rules : List String

unfoldable pub check_context : Context → Check
check_context c =
    require (all nonempty c.visible_scopes) (validation_error "value must be an exact string")

pub record Supersession : Type 0 where
  pub old : String
  pub new : String
  pub snapshot : String

unfoldable pub check_supersession : Supersession → Check
check_supersession s =
    refuse (s.old == s.new) (validation_error "knowledge cannot supersede itself")

pub record Derivation : Type 0 where
  pub knowledge_id : String
  pub rule_id : String
  pub rule_version : String
  pub bindings : List (String × String)
  pub snapshot : String
  pub context : String
  pub dependencies : List String
  pub grounding_evidence : String

unfoldable pub check_derivation : Derivation → Check
check_derivation d = do
  text d.rule_version
  require (distinct (map (λ b. b.0) d.bindings)) (validation_error "duplicate derivation binding")
  require (distinct d.dependencies) (validation_error "duplicate derivation dependency")
  require (nonempty d.grounding_evidence)
      (validation_error "derivation requires grounding evidence")
