-- ===== src/Witnesses/Studio/Runs.antt =====
-- The runs of the scope: its discovery, the results of its rule, and its evaluation.
use atlas_py.Rules.Ground
use atlas_py.Errors.{ok, >>=-of_ok, admission_error, err}
use atlas_py.Prelude.{
  [], refl, ◌∷◌, ◌≡◌, ◌↔◌, String, any, arith, contains, eq_iff, false, not, some, subset, true,
  ◌&&◌, ◌==◌,
}
use atlas_py.Scope.{validate_scope_environment, create_decision_scope}
use atlas_py.Scope.Discovery.{
  discover_relation, first_context, is_visible, matches_query, relations,
}
use atlas_py.Scope.Evaluate.{
  observe_each, evaluate, evaluate_decision_scope, run_of, the_prescribed_rule,
}
use atlas_py.Scope.Validate.Accepted.{bindings_of, HoldsRecords, check_result_accepts}
use atlas_py.Witnesses.Studio.{
  bare, choice, lime_certificate, observed, oil_certificate, oil_result, stamp, evaluated,
  studio_snapshot,
}
use atlas_py.Model.Scope.{check_manifest, current}
use atlas_py.Prelude.Dict.{get, values}
use atlas_py.Prelude.Order.{ascending}
use atlas_py.Problem.Access.{decision_scope}
use atlas_py.Scope.Discovery.Partition.{discover_relation_partition}
use atlas_py.Scope.Discovery.Answers.{Realizes, Shown}
use atlas_py.Scope.Discovery.Exact.{discover_relation_exact}
use atlas_py.Model.Knowledge.{RelationAssertion}
use mathlib.Core.List.{Memᴰ}
use atlas_py.Scope.Evaluate.Accepted.{evaluate_returns}
use atlas_py.Scope.Evaluate.Complete.{Covers, evaluate-Covers, evaluate_decision_scope_once}
use atlas_py.Scope.Validate.{check_result}
use atlas_py.Store.{subscript, Store}
use atlas_py.Store.Ancestry.{IsHistory}
use atlas_py.Store.View.{effective_record_ids}
use atlas_py.Scope.Created.{IsDeclarable, create_decision_scope_once}

finds_oil : discover_relation bare choice "oil" ≡ ok oil_certificate
unfolding atlas_py.Scope.Discovery.discover_relation atlas_py.Store.subscript
    atlas_py.Scope.Discovery.first_context atlas_py.Scope.Discovery.the_discovery_version
    atlas_py.Prelude.keep atlas_py.Scope.Discovery.checked_query
    atlas_py.Store.View.effective_record_ids atlas_py.Scope.Discovery.checked_evidence
    atlas_py.Scope.Discovery.relation_matches atlas_py.Prelude.Dict.get
    atlas_py.Model.Discovery.check_query atlas_py.Store.open_snapshot
    atlas_py.Store.View.visible_supersessions atlas_py.Store.View.prune
    atlas_py.Store.View.is_unmasked atlas_py.Prelude.contains
    atlas_py.Model.Discovery.check_evidence atlas_py.Scope.Discovery.is_visible
    atlas_py.Scope.Discovery.sort_relations atlas_py.Scope.Discovery.matches_query
    atlas_py.Scope.Discovery.relations atlas_py.Store.check_open atlas_py.Store.View.visible_from
    atlas_py.Store.View.prune_round atlas_py.Prelude.distinct atlas_py.Prelude.subset
    atlas_py.Prelude.any atlas_py.Scope.Discovery.insert_relation atlas_py.Rules.Reads.is_isolated
    atlas_py.Values.same_texts atlas_py.Store.View.snapshot_descends_from
    atlas_py.Store.View.is_stale atlas_py.Store.View.remove atlas_py.Prelude.Order.text_lt
    atlas_py.Store.View.ascend
finds_oil = refl

finds_lime : discover_relation bare choice "lime" ≡ ok lime_certificate
unfolding atlas_py.Scope.Discovery.discover_relation atlas_py.Store.subscript
    atlas_py.Scope.Discovery.first_context atlas_py.Scope.Discovery.the_discovery_version
    atlas_py.Prelude.keep atlas_py.Scope.Discovery.checked_query
    atlas_py.Store.View.effective_record_ids atlas_py.Scope.Discovery.checked_evidence
    atlas_py.Scope.Discovery.relation_matches atlas_py.Prelude.Dict.get
    atlas_py.Model.Discovery.check_query atlas_py.Store.open_snapshot
    atlas_py.Store.View.visible_supersessions atlas_py.Store.View.prune
    atlas_py.Store.View.is_unmasked atlas_py.Prelude.contains
    atlas_py.Model.Discovery.check_evidence atlas_py.Scope.Discovery.is_visible
    atlas_py.Scope.Discovery.sort_relations atlas_py.Scope.Discovery.matches_query
    atlas_py.Scope.Discovery.relations atlas_py.Store.check_open atlas_py.Store.View.visible_from
    atlas_py.Store.View.prune_round atlas_py.Prelude.distinct atlas_py.Prelude.subset
    atlas_py.Prelude.any atlas_py.Scope.Discovery.insert_relation atlas_py.Rules.Reads.is_isolated
    atlas_py.Values.same_texts atlas_py.Store.View.snapshot_descends_from
    atlas_py.Store.View.is_stale atlas_py.Store.View.remove atlas_py.Prelude.Order.text_lt
    atlas_py.Store.View.ascend
finds_lime = refl

grounds_oil : Ground.ground stamp bare "r" (bindings_of choice "oil") "s1" "c" ≡ ok oil_result
unfolding atlas_py.Rules.Ground.ground atlas_py.Store.check_open atlas_py.Store.open_snapshot
    atlas_py.Rules.Ground.historical_rule atlas_py.Rules.Ground.historical_context
    atlas_py.Prelude.contains atlas_py.Rules.Ground.payload_fields
    atlas_py.Rules.Ground.rule_structure atlas_py.Rules.Ground.matches_declared
    atlas_py.Rules.Ground.bind_each atlas_py.Rules.Ground.ground_bound atlas_py.Store.subscript
    atlas_py.Rules.Ground.the_rule atlas_py.Prelude.keep atlas_py.Rules.Ground.the_context
    atlas_py.Json.lookup atlas_py.Prelude.all atlas_py.Prelude.Dict.put atlas_py.Rules.Expr.expr
    atlas_py.Rules.Ground.conclude_if_true atlas_py.Rules.Ground.conclude
    atlas_py.Rules.Ground.witnessed atlas_py.Prelude.Dict.get atlas_py.Json.texts
    atlas_py.Rules.Expr.operate atlas_py.Rules.text_field atlas_py.Rules.Ground.find_head
    atlas_py.Identity.identifier atlas_py.Rules.Reads.fixes atlas_py.Rules.Ground.subscript_all
    atlas_py.Rules.Ground.checked_conclusion atlas_py.Rules.Ground.scope_of
    atlas_py.Rules.Ground.terminal_provenance atlas_py.Model.Grounding.check_grounding_result
    atlas_py.Evidence.evidence_for atlas_py.Rules.Reads.read_property atlas_py.Rules.Reads.read_of
    atlas_py.Rules.Expr.set_operator atlas_py.Rules.Ground.head_of atlas_py.Identity.is_ascii
    atlas_py.Prelude.any atlas_py.Model.Grounding.check_conclusion
    atlas_py.Provenance.canonical_provenance atlas_py.Rules.Ground.sources_of
    atlas_py.Evidence.canonical_grounding atlas_py.Rules.Reads.find_property
    atlas_py.Store.View.effective_record_ids atlas_py.Rules.Reads.decide_read
    atlas_py.Rules.Reads.candidates atlas_py.Rules.Expr.apply_sets atlas_py.Values.same_texts
    atlas_py.Prelude.Order.sorted_set atlas_py.Evidence.exact_id atlas_py.Evidence.exact_text
    atlas_py.Evidence.bindings_json atlas_py.Evidence.conclusion_json
    atlas_py.Evidence.dependencies_json atlas_py.Evidence.each_json atlas_py.Evidence.missing_json
    atlas_py.Evidence.ambiguous_json atlas_py.Vocabulary.find
    atlas_py.Store.View.visible_supersessions atlas_py.Store.View.prune
    atlas_py.Store.View.is_unmasked atlas_py.Rules.use_record atlas_py.Rules.use_records
    atlas_py.Rules.Reads.sort_by_id atlas_py.Rules.Reads.answers atlas_py.Rules.Reads.assertions
    atlas_py.Values.finite_set atlas_py.Rules.append_all_new atlas_py.Prelude.subset
    atlas_py.Prelude.Order.insert_sorted atlas_py.Evidence.binding_json atlas_py.Evidence.scope_json
    atlas_py.Evidence.items atlas_py.Store.View.visible_from atlas_py.Store.View.prune_round
    atlas_py.Rules.append_new atlas_py.Rules.Reads.insert_by_id atlas_py.Rules.Reads.is_isolated
    atlas_py.Prelude.distinct atlas_py.Prelude.Order.text_lt
    atlas_py.Store.View.snapshot_descends_from atlas_py.Store.View.is_stale
    atlas_py.Store.View.remove atlas_py.Store.View.ascend atlas_py.Json.depth
grounds_oil = refl

fits_environment : validate_scope_environment bare choice ≡ ok tt
unfolding atlas_py.Scope.validate_scope_environment atlas_py.Scope.validate_manifest
    atlas_py.Errors.expect atlas_py.Prelude.Dict.get atlas_py.Scope.check_environment
    atlas_py.Prelude.contains atlas_py.Scope.agrees_with atlas_py.Prelude.keep atlas_py.Prelude.all
    atlas_py.Scope.fixed_rules atlas_py.Scope.check_final_rules atlas_py.Values.same_texts
    atlas_py.Prelude.Dict.put atlas_py.Scope.is_final_rule atlas_py.Scope.same_version
fits_environment = refl

observes : observe_each stamp bare choice "r" ("oil" ∷ "lime" ∷ []) ≡ ok observed
unfolding atlas_py.Scope.Evaluate.observe_each atlas_py.Scope.Evaluate.recover
    atlas_py.Scope.Evaluate.observe atlas_py.Scope.Evaluate.grounding_message
    atlas_py.Scope.Evaluate.checked_observation atlas_py.Scope.Discovery.discover_relation
    atlas_py.Rules.Ground.ground atlas_py.Model.Scope.check_observation atlas_py.Store.subscript
    atlas_py.Scope.Discovery.first_context atlas_py.Scope.Discovery.the_discovery_version
    atlas_py.Prelude.keep atlas_py.Scope.Discovery.checked_query
    atlas_py.Store.View.effective_record_ids atlas_py.Scope.Discovery.checked_evidence
    atlas_py.Scope.Discovery.relation_matches atlas_py.Store.check_open atlas_py.Store.open_snapshot
    atlas_py.Rules.Ground.historical_rule atlas_py.Rules.Ground.historical_context
    atlas_py.Prelude.contains atlas_py.Rules.Ground.payload_fields
    atlas_py.Rules.Ground.rule_structure atlas_py.Rules.Ground.matches_declared
    atlas_py.Rules.Ground.bind_each atlas_py.Rules.Ground.ground_bound atlas_py.Prelude.Dict.get
    atlas_py.Model.Discovery.check_query atlas_py.Store.View.visible_supersessions
    atlas_py.Store.View.prune atlas_py.Store.View.is_unmasked
    atlas_py.Model.Discovery.check_evidence atlas_py.Scope.Discovery.is_visible
    atlas_py.Scope.Discovery.sort_relations atlas_py.Scope.Discovery.matches_query
    atlas_py.Scope.Discovery.relations atlas_py.Rules.Ground.the_rule
    atlas_py.Rules.Ground.the_context atlas_py.Json.lookup atlas_py.Prelude.all
    atlas_py.Prelude.Dict.put atlas_py.Rules.Expr.expr atlas_py.Rules.Ground.conclude_if_true
    atlas_py.Rules.Ground.conclude atlas_py.Rules.Ground.witnessed atlas_py.Store.View.visible_from
    atlas_py.Store.View.prune_round atlas_py.Prelude.distinct atlas_py.Prelude.subset
    atlas_py.Prelude.any atlas_py.Scope.Discovery.insert_relation atlas_py.Rules.Reads.is_isolated
    atlas_py.Values.same_texts atlas_py.Json.texts atlas_py.Rules.Expr.operate
    atlas_py.Rules.text_field atlas_py.Rules.Ground.find_head atlas_py.Identity.identifier
    atlas_py.Rules.Reads.fixes atlas_py.Rules.Ground.subscript_all
    atlas_py.Rules.Ground.checked_conclusion atlas_py.Rules.Ground.scope_of
    atlas_py.Rules.Ground.terminal_provenance atlas_py.Model.Grounding.check_grounding_result
    atlas_py.Evidence.evidence_for atlas_py.Store.View.snapshot_descends_from
    atlas_py.Store.View.is_stale atlas_py.Store.View.remove atlas_py.Prelude.Order.text_lt
    atlas_py.Rules.Reads.read_property atlas_py.Rules.Reads.read_of atlas_py.Rules.Expr.set_operator
    atlas_py.Rules.Ground.head_of atlas_py.Identity.is_ascii
    atlas_py.Model.Grounding.check_conclusion atlas_py.Provenance.canonical_provenance
    atlas_py.Rules.Ground.sources_of atlas_py.Evidence.canonical_grounding
    atlas_py.Store.View.ascend atlas_py.Rules.Reads.find_property atlas_py.Rules.Reads.decide_read
    atlas_py.Rules.Reads.candidates atlas_py.Rules.Expr.apply_sets atlas_py.Prelude.Order.sorted_set
    atlas_py.Evidence.exact_id atlas_py.Evidence.exact_text atlas_py.Evidence.bindings_json
    atlas_py.Evidence.conclusion_json atlas_py.Evidence.dependencies_json
    atlas_py.Evidence.each_json atlas_py.Evidence.missing_json atlas_py.Evidence.ambiguous_json
    atlas_py.Vocabulary.find atlas_py.Rules.use_record atlas_py.Rules.use_records
    atlas_py.Rules.Reads.sort_by_id atlas_py.Rules.Reads.answers atlas_py.Rules.Reads.assertions
    atlas_py.Values.finite_set atlas_py.Rules.append_all_new atlas_py.Prelude.Order.insert_sorted
    atlas_py.Evidence.binding_json atlas_py.Evidence.scope_json atlas_py.Evidence.items
    atlas_py.Rules.append_new atlas_py.Rules.Reads.insert_by_id atlas_py.Json.depth
observes = refl

pub bare-IsHistory : IsHistory bare
unfolding get
bare-IsHistory = record {
  is_open = refl;
  same = λ k v h. ground (arith, eq_iff "s1" k);
  parents = λ k p v h e. ground (arith, eq_iff "s1" k);
}

bare-HoldsRecords : HoldsRecords bare
unfolding get contains
bare-HoldsRecords k x v h m = ground (
  arith,
  eq_iff "s1" k,
  eq_iff "lime_in" x,
  eq_iff "lime_offers" x,
  eq_iff "oil_in" x,
  eq_iff "oil_offers" x,
  eq_iff "price" x,
  eq_iff "wall_needs" x,
)

discover_relation_partition_example :
    (ascending ("lime_in" ∷ []) ≡ true)
    × ((y : String)
        → contains ("lime_in" ∷ []) y ≡ (contains ("lime_in" ∷ []) y && not (contains [] y)))
    × (subset [] ("lime_in" ∷ []) ≡ true)
discover_relation_partition_example =
    discover_relation_partition bare choice "lime" lime_certificate finds_lime

opens : subscript bare.snapshots "s1" ≡ ok studio_snapshot
unfolding atlas_py.Store.subscript atlas_py.Prelude.Dict.get
opens = refl

context_of :
    first_context studio_snapshot.context_definitions "c"
    ≡ ok (record { id = "c"; visible_scopes = "site" ∷ []; enabled_rules = "r" ∷ [] })
unfolding atlas_py.Scope.Discovery.first_context
context_of = refl

sees_all : effective_record_ids bare "s1" ≡ ok studio_snapshot.record_ids
unfolding atlas_py.Store.View.effective_record_ids atlas_py.Store.open_snapshot
    atlas_py.Store.View.visible_supersessions atlas_py.Store.View.prune atlas_py.Prelude.keep
    atlas_py.Store.View.is_unmasked atlas_py.Prelude.contains atlas_py.Store.check_open
    atlas_py.Store.subscript atlas_py.Store.View.visible_from atlas_py.Store.View.prune_round
    atlas_py.Prelude.Dict.get atlas_py.Store.View.snapshot_descends_from
    atlas_py.Store.View.is_stale atlas_py.Store.View.remove atlas_py.Store.View.ascend
    atlas_py.Prelude.any
sees_all = refl

discover_relation_exact_example :
    (Memᴰ ("realizes", oil_certificate.query.version) studio_snapshot.predicate_versions
      ↔ (oil_certificate.query.version ≡ oil_certificate.query.version))
    × ((contains oil_certificate.found "oil_in" ≡ true) ↔ (
        (a : RelationAssertion) × (a.id ≡ "oil_in")
        × Realizes bare studio_snapshot.record_ids "1" "oil" "paint" a))
    × ((contains oil_certificate.included "oil_in" ≡ true) ↔ (
        (a : RelationAssertion) × (a.id ≡ "oil_in")
        × Realizes bare studio_snapshot.record_ids "1" "oil" "paint" a
        × Shown ("site" ∷ []) a))
discover_relation_exact_example =
    discover_relation_exact bare choice "oil" oil_certificate studio_snapshot
      (record { id = "c"; visible_scopes = "site" ∷ []; enabled_rules = "r" ∷ [] })
      studio_snapshot.record_ids finds_oil opens context_of sees_all oil_certificate.query.version
      "oil_in"

is_prescribed : contains ("r" ∷ []) "r" ≡ true
unfolding contains
is_prescribed = refl

check_result_accepts_example :
    check_result stamp bare choice "oil" true oil_result (get bare.snapshots "s1") ≡ ok tt
check_result_accepts_example =
    check_result_accepts stamp bare choice "oil" "r" oil_result bare-IsHistory bare-HoldsRecords
      is_prescribed grounds_oil studio_snapshot.record_ids sees_all

one_rule : the_prescribed_rule ("r" ∷ []) ≡ ok "r"
unfolding the_prescribed_rule
one_rule = refl

lists_candidates : check_manifest choice.manifest ≡ ok tt
unfolding atlas_py.Model.Scope.check_manifest atlas_py.Prelude.distinct atlas_py.Prelude.contains
lists_candidates = refl

pub evaluates : evaluate stamp bare choice ≡ ok (run_of choice observed)
evaluates =
    evaluate_returns stamp bare choice "r" observed bare-IsHistory bare-HoldsRecords one_rule
      fits_environment lists_candidates observes

evaluate_returns_example : evaluate stamp bare choice ≡ ok (run_of choice observed)
evaluate_returns_example =
    evaluate_returns stamp bare choice "r" observed bare-IsHistory bare-HoldsRecords one_rule
      fits_environment lists_candidates observes

evaluate-Covers_example : Covers stamp bare choice (run_of choice observed)
evaluate-Covers_example = evaluate-Covers stamp bare choice (run_of choice observed) evaluates

finds_scope : decision_scope bare "d" ≡ ok choice
unfolding atlas_py.Problem.Access.decision_scope atlas_py.Store.check_open atlas_py.Errors.expect
    atlas_py.Problem.Access.decision atlas_py.Prelude.Dict.get
finds_scope = refl

-- The evaluation is published under the scope.
publishes : evaluate_decision_scope stamp bare "d" ≡ ok (evaluated, run_of choice observed)
unfolding evaluate_decision_scope atlas_py.Store.check_open get atlas_py.Prelude.Dict.put
publishes = >>=-of_ok _ finds_scope (>>=-of_ok _ evaluates refl)

evaluate_decision_scope_once_example :
    (evaluate stamp bare choice ≡ ok (run_of choice observed))
    × (get evaluated.decision_groundings "d" ≡ some (run_of choice observed))
    × ((other : String)
        → ("d" == other) ≡ false
        → get evaluated.decision_groundings other ≡ get bare.decision_groundings other)
    × (evaluate_decision_scope stamp evaluated "d"
        ≡ err (admission_error "decision scope grounding already exists"))
evaluate_decision_scope_once_example =
    evaluate_decision_scope_once stamp bare "d" evaluated (run_of choice observed) publishes choice
      finds_scope

abbrev unscoped : Store
unscoped = record bare { decision_scopes = [] }

creates :
    create_decision_scope unscoped "d" "s1" "c" "paint" "wall" choice.manifest ≡ ok (bare, choice)
unfolding atlas_py.Scope.create_decision_scope atlas_py.Prelude.Dict.put atlas_py.Store.check_open
    atlas_py.Model.Scope.check_manifest atlas_py.Scope.validate_manifest
    atlas_py.Scope.validate_scope_environment atlas_py.Prelude.distinct atlas_py.Prelude.Dict.get
    atlas_py.Errors.expect atlas_py.Scope.check_environment atlas_py.Prelude.contains
    atlas_py.Scope.agrees_with atlas_py.Prelude.keep atlas_py.Prelude.all atlas_py.Scope.fixed_rules
    atlas_py.Scope.check_final_rules atlas_py.Values.same_texts atlas_py.Scope.is_final_rule
    atlas_py.Scope.same_version
creates = refl

create_decision_scope_once_example :
    (choice.schema ≡ current)
    × IsDeclarable unscoped choice
    × (decision_scope bare "d" ≡ ok choice)
    × (get bare.decision_scopes "e" ≡ get unscoped.decision_scopes "e")
    × (create_decision_scope bare "d" "s1" "c" "wall" "paint" choice.manifest
        ≡ err (admission_error "duplicate decision scope identity"))
create_decision_scope_once_example =
    create_decision_scope_once unscoped bare "d" "s1" "c" "paint" "wall" choice.manifest choice
      creates "s1" "c" "wall" "paint" "e" choice.manifest lists_candidates refl
