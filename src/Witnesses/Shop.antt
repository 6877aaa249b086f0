-- ===== src/Witnesses/Shop.antt =====
-- A store with two snapshots: a part fits a slot by the features that they have; in the second
-- snapshot a newer assertion replaces the slot's features.
mod Views
mod Growth
use atlas_py.Prelude.{String, Bool, true, false, Option, none, some, List, [], ◌∷◌}
use atlas_py.Prelude.Dict.{Dict}
use atlas_py.Json.{Json, Items, Fields, text, array, object, nil, cons, end, field, from_texts}
use atlas_py.Values.{Value, finite_set_symbol}
use atlas_py.Vocabulary.{PredicateSpec, PropertySpec, Vocabulary}
use atlas_py.Model.Knowledge.{
  PropertyAssertion, RelationAssertion, ScopeRef, one, KnowledgeRecord, property, relation, Rule,
  Context, Supersession, Derivation,
}
use atlas_py.Model.Snapshot.{Snapshot, ContextDefinition, RuleDefinition}
use atlas_py.Store.{Store}

abbrev pub features_of : String → String → String → List String → KnowledgeRecord
features_of ident description name features = property (record {
  id = ident;
  description = description;
  property = name;
  version = "1";
  value = finite_set_symbol features;
  scope = "shop";
  epistemic_status = "exact";
  provenance = "src" ∷ [];
})

abbrev fits_record : KnowledgeRecord
fits_record = relation (record {
  id = "q";
  predicate = "fits";
  version = "1";
  participants = "part" ∷ "slot" ∷ [];
  polarity = "positive";
  scope = one "shop";
  epistemic_status = "exact";
  provenance = "src" ∷ [];
  derivation_id = some "q";
})

abbrev derived : Derivation
derived = record {
  knowledge_id = "q";
  rule_id = "r";
  rule_version = "1";
  bindings = ("p", "part") ∷ ("s", "slot") ∷ [];
  snapshot = "s1";
  context = "c";
  dependencies = "need" ∷ "have" ∷ [];
  grounding_evidence = "seal";
}

abbrev read_field : String → String → Json
read_field participant name = object (
    field "op" (text "property") (
      field "participant" (text participant)
        (field "property" (text name) (field "version" (text "1") end))))

abbrev names : Json
names = array (cons (text "p") (cons (text "s") nil))

abbrev payload : Json
payload = object (
    field "participants" names (
      field "when"
        (object (
          field "op" (text "set_subset")
            (field "left" (read_field "p" "needs") (field "right" (read_field "s" "offers") end))))
        (field "head"
          (object (
            field "predicate" (text "fits") (
              field "version" (text "1")
                (field "participants" names (field "polarity" (text "positive") end)))))
          end)))

abbrev snapshot_of : String → Option String → List String → Snapshot
snapshot_of ident parent ids = record {
  id = ident;
  parent = parent;
  record_ids = ids;
  predicate_versions = ("fits", "1") ∷ [];
  property_versions = ("needs", "1") ∷ ("offers", "1") ∷ [];
  rule_versions = ("r", "1") ∷ [];
  context_ids = "c" ∷ [];
  context_definitions =
      record { id = "c"; visible_scopes = "shop" ∷ []; enabled_rules = "r" ∷ [] } ∷ [];
  rule_definitions =
      record { id = "r"; version = "1"; payload = payload; evaluation_supported = true } ∷ [];
  description_ids = "part" ∷ "slot" ∷ [];
}

abbrev pub first : Snapshot
first = snapshot_of "s1" none ("have" ∷ "need" ∷ "q" ∷ [])

abbrev pub second : Snapshot
second = snapshot_of "s2" (some "s1") ("have" ∷ "need" ∷ "newer" ∷ "q" ∷ [])

abbrev pub replacement : Supersession
replacement = record { old = "have"; new = "newer"; snapshot = "s2" }

abbrev spec_of : String → PropertySpec
spec_of name = record {
  id = name;
  version = "1";
  value_kind = "finite_set<symbol>";
  cardinality = "multivalued";
}

abbrev pub shop : Dict Supersession → Store
shop edges = record {
  closed = false;
  vocabulary = record {
    predicates =
        (("fits", "1"), record { id = "fits"; version = "1"; arity = 2; roles = "p" ∷ "s" ∷ [] })
        ∷ [];
    properties = (("needs", "1"), spec_of "needs") ∷ (("offers", "1"), spec_of "offers") ∷ [];
  };
  descriptions =
      ("part", record { id = "part"; label = "a part" })
      ∷ ("slot", record { id = "slot"; label = "a slot" })
      ∷ [];
  sources = ("src", record { id = "src" }) ∷ [];
  rules = [];
  contexts = [];
  snapshots = ("s1", first) ∷ ("s2", second) ∷ [];
  records =
      ("need", features_of "need" "part" "needs" ("x" ∷ []))
      ∷ ("have", features_of "have" "slot" "offers" ("x" ∷ []))
      ∷ ("newer", features_of "newer" "slot" "offers" ("y" ∷ "x" ∷ []))
      ∷ ("q", fits_record)
      ∷ [];
  derivations = ("q", derived) ∷ [];
  supersessions = edges;
  decision_scopes = [];
  decision_groundings = [];
  grounded_decision_problems = [];
  decisions = [];
  isolated = [];
}

abbrev pub edges_after : Dict Supersession
edges_after = ("have", replacement) ∷ []
