-- ===== src/Rules/Reads.antt =====
-- rules.py: the read of a property, the first operator of `_expr`.
pub mod Effective
use atlas_py.Prelude.{
  String, Bool, true, false, not, ◌&&◌, Option, none, some, List, [], ◌∷◌, ◌++◌, ◌==◌, any,
  contains, keep, map, if◌then◌else◌,
}
use atlas_py.Prelude.Texts.{◌<+>◌}
use atlas_py.Prelude.Order.{text_lt}
use atlas_py.Prelude.Dict.{Dict, get, values}
use atlas_py.Errors.{Result, ok, err, grounding_error, require, ◌>>=◌, ◌>>◌}
use atlas_py.Identity.{identifier}
use atlas_py.Json.{Fields}
use atlas_py.Values.{Value, finite_set_symbol, nonempty}
use atlas_py.Vocabulary.{PropertySpec, key_eq, find}
use atlas_py.Model.Knowledge.{PropertyAssertion, KnowledgeRecord, property, relation}
use atlas_py.Model.Snapshot.{Snapshot}
use atlas_py.Model.Grounding.{EvaluationTruth, holds, unknown, MissingRead, AmbiguousRead}
use atlas_py.Store.{Store}
use atlas_py.Store.View.{effective_record_ids}
use atlas_py.Rules.{State, use_record, use_records, Outcome, text_field}

-- The participant of a read with what it is bound to, the property and its version.
pub record Read : Type 0 where
  pub participant : String
  pub description : String
  pub property : String
  pub version : String

-- The property assertions among the records.
unfoldable pub assertions : List KnowledgeRecord → List PropertyAssertion
assertions [] = []
assertions (property a ∷ rest) = a ∷ assertions rest
assertions (relation a ∷ rest) = assertions rest

unfoldable pub is_isolated : Store → String → String → Bool
is_isolated s kind ident = any (λ x. x.0 == kind && x.1 == ident) s.isolated

unfoldable pub answers : Store → List String → List String → Read → PropertyAssertion → Bool
answers s effective scopes r a =
    contains effective a.id
    && not (is_isolated s "property" a.id)
    && a.description == r.description
    && a.property == r.property
    && a.version == r.version
    && contains scopes a.scope

-- candidates.sort(key=lambda record: record.id.value)
unfoldable pub insert_by_id : PropertyAssertion → List PropertyAssertion → List PropertyAssertion
insert_by_id a [] = a ∷ []
insert_by_id a (b ∷ rest) = if text_lt b.id a.id then b ∷ insert_by_id a rest else a ∷ b ∷ rest

unfoldable pub sort_by_id : List PropertyAssertion → List PropertyAssertion
sort_by_id [] = []
sort_by_id (a ∷ rest) = insert_by_id a (sort_by_id rest)

unfoldable pub candidates : Store → List String → List String → Read → List PropertyAssertion
candidates s effective scopes r =
    sort_by_id (keep (answers s effective scopes r) (assertions (values s.records)))

abbrev pub is_finite_set : Value → Bool
is_finite_set (finite_set_symbol items) = true
is_finite_set _ = false

-- No candidate, one, or more.
unfoldable pub decide_read : PropertySpec → Read → State → List PropertyAssertion → Result Outcome
decide_read spec r st [] =
    let read : MissingRead = record {
      participant = r.participant;
      description = r.description;
      property = r.property;
      version = r.version;
    } in
    ok (record {
      truth = unknown;
      value = none;
      state = record st { missing = st.missing ++ read ∷ [] };
    })
decide_read spec r st (a ∷ []) = do
  require (spec.value_kind == "finite_set<symbol>" && is_finite_set a.value)
      (grounding_error "property value is incompatible with this operator")
  require (a.epistemic_status == "exact") (
      grounding_error
        ("M1b.1 does not support property epistemic status '" <+> a.epistemic_status <+> "'"))
  ok (record { truth = holds; value = some a.value; state = use_record st a })
decide_read spec r st (a ∷ b ∷ rest) =
    let read : AmbiguousRead = record {
      participant = r.participant;
      description = r.description;
      property = r.property;
      version = r.version;
      knowledge_ids = map (λ x. x.id) (a ∷ b ∷ rest);
    } in
    ok (record {
      truth = unknown;
      value = none;
      state = use_records (record st { ambiguous = st.ambiguous ++ read ∷ [] }) (a ∷ b ∷ rest);
    })

-- The fields of a read, where they have the types asked for and the participant is bound.
unfoldable pub read_of : Dict String → Fields → Option Read
read_of bindings fs = elim (text_field fs "participant") [
  | none ↦ none
  | some participant ↦ elim (get bindings participant) [
    | none ↦ none
    | some description ↦ elim (text_field fs "property") [
      | none ↦ none
      | some name ↦ some (record {
        participant = participant;
        description = description;
        property = name;
        version = elim (text_field fs "version") [ none ↦ "" | some v ↦ v ];
      })
    ]
  ]
]

-- (identity, version) in versions
unfoldable pub fixes : List (String × String) → String → String → Bool
fixes versions ident version = any (λ x. key_eq x (ident, version)) versions

-- Vocabulary.prop, and the test that follows it
unfoldable pub find_property : Store → String → String → Result PropertySpec
find_property s name version = elim (find s.vocabulary.properties (name, version)) [
  | none ↦ err (grounding_error "unresolved property vocabulary entry")
  | some spec ↦ ok spec
]

unfoldable pub read_property : Store → Snapshot → List String → State → Option Read → Result Outcome
read_property s snapshot scopes st none = err (grounding_error "invalid property expression")
read_property s snapshot scopes st (some r) = do
  identifier r.property
  require (nonempty r.version && fixes snapshot.property_versions r.property r.version)
      (grounding_error "property version is outside the requested snapshot")
  spec ← find_property s r.property r.version
  effective ← effective_record_ids s snapshot.id
  decide_read spec r st (candidates s effective scopes r)

unfoldable pub the_property_version : List (String × String) → Result String
the_property_version (v ∷ []) = ok v.1
the_property_version _ = err (grounding_error "property version is not unique in the snapshot")

-- _property_version, which no other function calls
unfoldable pub property_version : Snapshot → String → Result String
property_version snapshot name =
    the_property_version (keep (λ v. v.0 == name) snapshot.property_versions)
