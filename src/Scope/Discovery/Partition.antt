-- ===== src/Scope/Discovery/Partition.antt =====
-- scope.py: the certificate of a discovery: its order, and how it splits what was found.
use atlas_py.Errors.{>>-eq-ok, >>=-eq-ok, ok, require, require-true, validation_error}
use atlas_py.Graph.Walk.{ok_injective}
use atlas_py.Model.Discovery.{
  DiscoveryEvidence, DiscoveryQuery, check_evidence, check_query, evidence_schema, excluded_ids,
}
use atlas_py.Model.Knowledge.{RelationAssertion}
use atlas_py.Model.Scope.{DecisionScope}
use atlas_py.Model.Snapshot.{ContextDefinition, Snapshot}
use atlas_py.Prelude.{
  List, String, [], arith, contains, distinct, eq_iff, keep, map, not, refl, subset, sym, true,
  ◌&&◌, ◌==◌, ◌∷◌, ◌≡◌,
}
use atlas_py.Prelude.Order.{ascending}
use atlas_py.Scope.Discovery.{
  certificate, checked_evidence, checked_query, discover_relation, first_context, is_visible,
  outside, query_of, relation_ids, relation_matches, the_discovery_version,
}
use atlas_py.Scope.Discovery.Sorted.{distinct-ascending, matches-weakly_ascending, weakly_ascending}
use atlas_py.Store.{Store, subscript}
use atlas_py.Store.View.{effective_record_ids}
use mathlib.Core.Path.{subst}

-- The steps of a discovery that returns.
pub record DiscoveryRun (s : Store) (scope : DecisionScope) (candidate : String)
    (e : DiscoveryEvidence) : Type 0 where
  pub snapshot : Snapshot
  pub context : ContextDefinition
  pub version : String
  pub effective : List String
  pub stored : subscript s.snapshots scope.snapshot ≡ ok snapshot
  pub fixed : first_context snapshot.context_definitions scope.context ≡ ok context
  pub unique :
      the_discovery_version (keep (λ v. v.0 == "realizes") snapshot.predicate_versions) ≡ ok version
  pub seen : effective_record_ids s snapshot.id ≡ ok effective
  pub certified :
      e
      ≡ certificate
          (query_of version candidate scope.intention)
          context.visible_scopes
          (relation_matches s effective (query_of version candidate scope.intention))
  pub checked : check_evidence e ≡ ok tt

checked_query_ok : (q q' : DiscoveryQuery) → checked_query q ≡ ok q' → q ≡ q'
unfolding checked_query
checked_query_ok q q' h = let (c, h1) = >>-eq-ok (check_query q) h in ok_injective h1

checked_evidence_ok :
    (d e : DiscoveryEvidence) → checked_evidence d ≡ ok e → (e ≡ d) × (check_evidence e ≡ ok tt)
unfolding checked_evidence
checked_evidence_ok d e h =
    let (c, h1) = >>-eq-ok (check_evidence d) h in
    let same = ok_injective h1 in (sym same, subst (λ x. check_evidence x ≡ ok tt) same c)

pub discover_relation-DiscoveryRun :
    (s : Store) (scope : DecisionScope) (candidate : String) (e : DiscoveryEvidence)
    → discover_relation s scope candidate ≡ ok e
    → DiscoveryRun s scope candidate e
unfolding discover_relation
discover_relation-DiscoveryRun s scope candidate e h =
    let (snapshot, e1, h1) = >>=-eq-ok (subscript s.snapshots scope.snapshot) _ h in
    let (context, e2, h2) =
      >>=-eq-ok (first_context snapshot.context_definitions scope.context) _ h1 in
    let (version, e3, h3) =
      >>=-eq-ok (the_discovery_version (keep (λ v. v.0 == "realizes") snapshot.predicate_versions))
        _ h2 in
    let (query, e4, h4) =
      >>=-eq-ok (checked_query (query_of version candidate scope.intention)) _ h3 in
    let same = checked_query_ok _ query e4 in
    let (effective, e5, h5) = >>=-eq-ok (effective_record_ids s snapshot.id) _ h4 in
    let (made, checked) = checked_evidence_ok _ e h5 in
    record {
      snapshot = snapshot;
      context = context;
      version = version;
      effective = effective;
      stored = e1;
      fixed = e2;
      unique = e3;
      seen = e5;
      certified =
          subst (λ q. e ≡ certificate q context.visible_scopes (relation_matches s effective q))
            (sym same) made;
      checked = checked;
    }

-- The test reads the identity alone.
contains-left_out :
    (included : List String) (found : List RelationAssertion) (y : String)
    → contains
        (map (λ x. x.knowledge_id) (map outside (keep (λ a. not (contains included a.id)) found)))
        y
      ≡ (contains (relation_ids found) y && not (contains included y))
unfolding contains keep
contains-left_out included [] y = refl
contains-left_out included (a ∷ found) y =
    ground (arith, contains-left_out included found y, eq_iff a.id y)

evidence_distinct : (e : DiscoveryEvidence) → check_evidence e ≡ ok tt → distinct e.found ≡ true
unfolding check_evidence
evidence_distinct e h =
    let (schema, h1) =
      >>-eq-ok
        (require (e.schema == evidence_schema)
          (validation_error "unsupported discovery evidence schema"))
        h in
    let (found, h2) =
      >>-eq-ok
        (require (distinct e.found) (validation_error "discovery found contains a duplicate")) h1 in
    require-true _ found

evidence_disjoint :
    (e : DiscoveryEvidence) → check_evidence e ≡ ok tt → subset e.included e.found ≡ true
unfolding check_evidence
evidence_disjoint e h = ground arith

module _ (s : Store) (scope : DecisionScope) (candidate : String) (e : DiscoveryEvidence)
    (returned : discover_relation s scope candidate ≡ ok e) where
  -- A discovery that returns lists what it found in ascending order of identity, each identity
  -- once, and splits it: an identity that was found is either included or excluded, and no
  -- identity is both.
  pub discover_relation_partition :
      (ascending e.found ≡ true)
      × ((y : String)
          → contains (excluded_ids e) y ≡ (contains e.found y && not (contains e.included y)))
      × (subset e.included e.found ≡ true)
  discover_relation_partition =
      let run = discover_relation-DiscoveryRun s scope candidate e returned in
      let q = query_of run.version candidate scope.intention in
      let found = relation_matches s run.effective q in
      (
        distinct-ascending e.found
            (subst (λ x. weakly_ascending x.found ≡ true) (sym run.certified)
              (matches-weakly_ascending s run.effective q))
            (evidence_distinct e run.checked),
        λ y.
            subst
              (λ x.
                contains (excluded_ids x) y ≡ (contains x.found y && not (contains x.included y)))
              (sym run.certified)
              (contains-left_out (relation_ids (keep (is_visible run.context.visible_scopes) found))
                found y),
        evidence_disjoint e run.checked,
      )
