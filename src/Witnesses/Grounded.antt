-- ===== src/Witnesses/Grounded.antt =====
-- The rule of that store, evaluated at the second snapshot.
use atlas_py.Prelude.{
  String, ◌≡◌, refl, Bool, true, false, not, ◌&&◌, Option, none, some, List, [], ◌∷◌, is_empty,
  contains,
}
use atlas_py.Prelude.Dict.{Dict}
use atlas_py.Errors.{ok}
use atlas_py.Json.{Json}
use atlas_py.Model.Knowledge.{one}
use atlas_py.Model.Grounding.{
  EvaluationTruth, holds, unknown, is_unknown, GroundedConclusion, GroundingResult,
}
use atlas_py.Store.{Store, open_snapshot}
use atlas_py.Store.View.{effective_record_ids}
use atlas_py.Rules.Ground.{ground}
use atlas_py.Rules.Ground.Reads.{ground_reads}
use atlas_py.Witnesses.Shop.{second, shop, edges_after}

abbrev seal : Json → String
seal json = "seal"

abbrev bindings : Dict String
bindings = ("p", "part") ∷ ("s", "slot") ∷ []

abbrev fitting : GroundingResult
fitting = record {
  rule_id = "r";
  rule_version = "1";
  bindings = bindings;
  truth = holds;
  conclusion = some (record {
    term = record { predicate = "fits"; version = "1"; participants = "part" ∷ "slot" ∷ [] };
    polarity = "positive";
    epistemic_status = "exact";
    scope = one "shop";
    provenance = "src" ∷ [];
    rule_id = "r";
    rule_version = "1";
    dependencies = "need" ∷ "newer" ∷ [];
  });
  effective_dependencies = "need" ∷ "newer" ∷ [];
  missing_reads = [];
  ambiguous_reads = [];
  snapshot = "s2";
  context = "c";
  grounding_evidence = "seal";
}

opens : open_snapshot (shop edges_after) "s2" ≡ ok second
unfolding open_snapshot atlas_py.Store.check_open atlas_py.Store.subscript atlas_py.Prelude.Dict.get
opens = refl

stays : effective_record_ids (shop edges_after) "s2" ≡ ok ("need" ∷ "newer" ∷ [])
unfolding effective_record_ids open_snapshot atlas_py.Store.check_open atlas_py.Store.subscript
    atlas_py.Prelude.Dict.get atlas_py.Store.View.visible_supersessions
    atlas_py.Store.View.visible_from atlas_py.Store.View.snapshot_descends_from
    atlas_py.Store.View.ascend atlas_py.Store.View.prune atlas_py.Store.View.prune_round contains
    atlas_py.Prelude.keep atlas_py.Store.View.is_unmasked atlas_py.Store.View.is_stale
    atlas_py.Prelude.any atlas_py.Store.View.remove
stays = refl

fits_newer : ground seal (shop edges_after) "r" bindings "s2" "c" ≡ ok fitting
unfolding ground open_snapshot effective_record_ids contains atlas_py.Store.check_open
    atlas_py.Store.subscript atlas_py.Prelude.Dict.get atlas_py.Prelude.Dict.put
    atlas_py.Rules.Ground.historical_rule atlas_py.Rules.Ground.the_rule
    atlas_py.Rules.Ground.historical_context atlas_py.Rules.Ground.the_context
    atlas_py.Rules.Ground.payload_fields atlas_py.Rules.Ground.rule_structure
    atlas_py.Rules.Ground.matches_declared atlas_py.Rules.Ground.bind_each
    atlas_py.Rules.Ground.ground_bound atlas_py.Rules.Ground.conclude_if_true
    atlas_py.Rules.Ground.conclude atlas_py.Rules.Ground.find_head atlas_py.Rules.Ground.head_of
    atlas_py.Rules.Ground.subscript_all atlas_py.Rules.Ground.terminal_provenance
    atlas_py.Rules.Ground.sources_of atlas_py.Rules.Ground.scope_of
    atlas_py.Rules.Ground.checked_conclusion atlas_py.Rules.Ground.witnessed atlas_py.Prelude.keep
    atlas_py.Prelude.all atlas_py.Prelude.any atlas_py.Prelude.distinct atlas_py.Prelude.subset
    atlas_py.Json.lookup atlas_py.Json.texts atlas_py.Json.depth atlas_py.Rules.append_new
    atlas_py.Rules.append_all_new atlas_py.Rules.use_record atlas_py.Rules.use_records
    atlas_py.Rules.text_field atlas_py.Rules.Expr.expr atlas_py.Rules.Expr.operate
    atlas_py.Rules.Expr.set_operator atlas_py.Rules.Expr.apply_sets
    atlas_py.Rules.Reads.read_property atlas_py.Rules.Reads.read_of
    atlas_py.Rules.Reads.find_property atlas_py.Rules.Reads.fixes atlas_py.Rules.Reads.decide_read
    atlas_py.Rules.Reads.candidates atlas_py.Rules.Reads.sort_by_id
    atlas_py.Rules.Reads.insert_by_id atlas_py.Rules.Reads.answers atlas_py.Rules.Reads.is_isolated
    atlas_py.Rules.Reads.assertions atlas_py.Identity.identifier atlas_py.Identity.is_ascii
    atlas_py.Vocabulary.find atlas_py.Values.same_texts atlas_py.Provenance.canonical_provenance
    atlas_py.Prelude.Order.sorted_set atlas_py.Prelude.Order.insert_sorted
    atlas_py.Prelude.Order.text_lt atlas_py.Model.Grounding.check_conclusion
    atlas_py.Model.Grounding.check_grounding_result atlas_py.Store.View.visible_supersessions
    atlas_py.Store.View.visible_from atlas_py.Store.View.snapshot_descends_from
    atlas_py.Store.View.ascend atlas_py.Store.View.is_unmasked atlas_py.Store.View.remove
    atlas_py.Store.View.is_stale atlas_py.Store.View.prune_round atlas_py.Store.View.prune
    atlas_py.Evidence.items atlas_py.Evidence.each_json atlas_py.Evidence.exact_text
    atlas_py.Evidence.exact_id atlas_py.Evidence.scope_json atlas_py.Evidence.binding_json
    atlas_py.Evidence.bindings_json atlas_py.Evidence.dependencies_json
    atlas_py.Evidence.missing_json atlas_py.Evidence.ambiguous_json
    atlas_py.Evidence.conclusion_json atlas_py.Evidence.canonical_grounding
    atlas_py.Evidence.evidence_for
fits_newer = refl

ground_reads_example :
    (is_unknown fitting.truth
      ≡ not (is_empty fitting.missing_reads && is_empty fitting.ambiguous_reads))
    × ((y : String)
        → contains fitting.effective_dependencies y ≡ true
        → contains ("need" ∷ "newer" ∷ []) y ≡ true)
ground_reads_example =
    ground_reads seal (shop edges_after) "r" bindings "s2" "c" fitting second
      ("need" ∷ "newer" ∷ []) opens stays fits_newer
