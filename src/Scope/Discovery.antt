-- ===== src/Scope/Discovery.antt =====
-- scope.py: `discover_relation`, the one discovery of scope evaluation, and the validation of its
-- certificate.
pub mod Sorted
pub mod Partition
pub mod Answers
pub mod Exact
pub mod Accepted
use atlas_py.Errors.{
  Check, Result, err, expect, grounding_error, ok, require, stop_iteration, ◌>>=◌, ◌>>◌,
}
use atlas_py.Model.Discovery.{
  DiscoveryEvidence, DiscoveryExclusion, DiscoveryQuery, check_evidence, check_query,
  evidence_schema, excluded_ids, outside_context,
}
use atlas_py.Model.Knowledge.{KnowledgeRecord, RelationAssertion, relation, scope_set, property}
use atlas_py.Model.Scope.{DecisionScope, GroundingObservation}
use atlas_py.Model.Snapshot.{ContextDefinition, Snapshot}
use atlas_py.Prelude.{
  Bool, List, Option, String, [], any, contains, false, if◌then◌else◌, keep, map, none, not, some,
  ◌&&◌, ◌==◌, ◌∷◌,
}
use atlas_py.Prelude.Dict.{get, values}
use atlas_py.Prelude.Order.{text_lt}
use atlas_py.Rules.Reads.{is_isolated}
use atlas_py.Store.{Store, subscript}
use atlas_py.Store.View.{effective_record_ids}
use atlas_py.Values.{same_texts}

-- The relation assertions among the records.
unfoldable pub relations : List KnowledgeRecord → List RelationAssertion
relations [] = []
relations (property a ∷ rest) = relations rest
relations (relation a ∷ rest) = a ∷ relations rest

unfoldable pub matches_query : Store → List String → DiscoveryQuery → RelationAssertion → Bool
matches_query s effective q a =
    contains effective a.id
    && not (is_isolated s "relation" a.id)
    && a.predicate == q.predicate
    && a.version == q.version
    && same_texts a.participants q.participants
    && a.polarity == q.polarity

-- matches.sort(key=lambda record: record.id.value)
unfoldable pub insert_relation : RelationAssertion → List RelationAssertion → List RelationAssertion
insert_relation a [] = a ∷ []
insert_relation a (b ∷ rest) =
    if text_lt b.id a.id then b ∷ insert_relation a rest else a ∷ b ∷ rest

unfoldable pub sort_relations : List RelationAssertion → List RelationAssertion
sort_relations [] = []
sort_relations (a ∷ rest) = insert_relation a (sort_relations rest)

unfoldable pub relation_matches : Store → List String → DiscoveryQuery → List RelationAssertion
relation_matches s effective q =
    sort_relations (keep (matches_query s effective q) (relations (values s.records)))

-- scopes & visible
unfoldable pub is_visible : List String → RelationAssertion → Bool
is_visible visible a = any (contains visible) (scope_set a.scope)

abbrev pub relation_ids : List RelationAssertion → List String
relation_ids found = map (λ a. a.id) found

abbrev pub outside : RelationAssertion → DiscoveryExclusion
outside a = record { knowledge_id = a.id; reason = outside_context }

-- next(x for x in context_definitions if x[0] == ident)
unfoldable pub first_context : List ContextDefinition → String → Result ContextDefinition
first_context [] ident = err stop_iteration
first_context (c ∷ cs) ident = if c.id == ident then ok c else first_context cs ident

unfoldable pub the_discovery_version : List (String × String) → Result String
the_discovery_version (v ∷ []) = ok v.1
the_discovery_version _ =
    err (grounding_error "discovery predicate version is not unique in snapshot")

unfoldable pub checked_query : DiscoveryQuery → Result DiscoveryQuery
checked_query q = do check_query q; ok q

unfoldable pub checked_evidence : DiscoveryEvidence → Result DiscoveryEvidence
checked_evidence e = do check_evidence e; ok e

abbrev pub query_of : String → String → String → DiscoveryQuery
query_of version candidate intention = record {
  kind = "relation";
  predicate = "realizes";
  version = version;
  participants = candidate ∷ intention ∷ [];
  polarity = "positive";
}

-- The certificate for the relations that match, sorted.
abbrev pub certificate : DiscoveryQuery → List String → List RelationAssertion → DiscoveryEvidence
certificate q visible found =
    let included = relation_ids (keep (is_visible visible) found) in
    record {
      schema = evidence_schema;
      query = q;
      found = relation_ids found;
      included = included;
      excluded = map outside (keep (λ a. not (contains included a.id)) found);
    }

unfoldable pub discover_relation : Store → DecisionScope → String → Result DiscoveryEvidence
discover_relation s scope candidate = do
  snapshot ← subscript s.snapshots scope.snapshot
  context ← first_context snapshot.context_definitions scope.context
  version ← the_discovery_version (keep (λ v. v.0 == "realizes") snapshot.predicate_versions)
  query ← checked_query (query_of version candidate scope.intention)
  effective ← effective_record_ids s snapshot.id
  checked_evidence (certificate query context.visible_scopes (relation_matches s effective query))

unfoldable pub query_eq : DiscoveryQuery → DiscoveryQuery → Bool
query_eq a b =
    a.kind == b.kind
    && a.predicate == b.predicate
    && a.version == b.version
    && same_texts a.participants b.participants
    && a.polarity == b.polarity

-- The only reason for an exclusion is that the relation lies outside the context.
unfoldable pub same_certificate : DiscoveryEvidence → DiscoveryEvidence → Bool
same_certificate a b =
    query_eq a.query b.query
    && same_texts a.found b.found
    && same_texts a.included b.included
    && same_texts (excluded_ids a) (excluded_ids b)

unfoldable pub is_one_version : List (String × String) → String → Bool
is_one_version (v ∷ []) version = v.1 == version
is_one_version _ version = false

unfoldable pub check_discovery :
    Store → DecisionScope → String → DiscoveryEvidence → Snapshot → Check
check_discovery s scope candidate e snapshot = do
  require (same_texts e.query.participants (candidate ∷ scope.intention ∷ []))
      (grounding_error "discovery query bindings disagree with scope")
  require
      (is_one_version (keep (λ v. v.0 == e.query.predicate) snapshot.predicate_versions)
        e.query.version)
      (grounding_error "discovery query predicate version is not fixed by snapshot")
  require (e.query.predicate == "realizes" && e.query.polarity == "positive")
      (grounding_error "unsupported discovery query")
  require (any (λ c. c.id == scope.context) snapshot.context_definitions)
      (grounding_error "discovery query context is absent from snapshot")
  expected ← discover_relation s scope candidate
  require (same_certificate e expected)
      (grounding_error "discovery evidence disagrees with pure semantic discovery")

unfoldable pub check_discovered : Store → DecisionScope → String → Option DiscoveryEvidence → Check
check_discovered s scope candidate none = ok tt
check_discovered s scope candidate (some e) = do
  snapshot ← expect "discovery query bindings disagree with scope" (get s.snapshots scope.snapshot)
  check_discovery s scope candidate e snapshot

-- validate_discovery_evidence
unfoldable pub validate_discovery : Store → DecisionScope → GroundingObservation → Check
validate_discovery s scope o = check_discovered s scope o.candidate o.discovery_evidence
