-- ===== src/Witnesses/Shop/Views.antt =====
-- The views of that store: descent, the effective records, and the dependencies.
use atlas_py.Prelude.{
  String, ◌≡◌, ◌↔◌, refl, Bool, true, false, Option, none, some, List, [], ◌∷◌, arith, eq_iff,
  contains, keep,
}
use atlas_py.Prelude.Dict.{get, Dict, has}
use atlas_py.Errors.{ok}
use atlas_py.Graph.Walk.{Reach}
use atlas_py.Store.{Store, open_snapshot}
use atlas_py.Store.View.{snapshot_descends_from, visible_supersessions, effective_record_ids}
use atlas_py.Store.Lineage.{Matches}
use atlas_py.Store.Ancestry.{IsHistory, snapshot_descends_from_lem}
use atlas_py.Store.Effective.{IsEffective, effective_record_ids_lem}
use atlas_py.Store.Dependencies.{derivation_inputs, direct_dependencies, transitive_dependencies}
use atlas_py.Store.Dependencies.Reachability.{IsClosed, transitive_dependencies_lem}
use atlas_py.Store.Visible.{ReplacedIn, visible_supersessions_lem}
use atlas_py.Witnesses.Shop.{second, shop, edges_after}
use atlas_py.Model.Knowledge.{Supersession}

pub shop-IsHistory : IsHistory (shop edges_after)
unfolding get
shop-IsHistory = record {
  is_open = refl;
  same = λ k v h. ground (arith, eq_iff "s1" k, eq_iff "s2" k);
  parents = λ k p v h e. ground (arith, eq_iff "s1" k, eq_iff "s2" k, eq_iff "s1" p);
}

opens_second : open_snapshot (shop edges_after) "s2" ≡ ok second
unfolding open_snapshot atlas_py.Store.check_open atlas_py.Store.subscript get
opens_second = refl

snapshot_descends_from_lem_example :
    (b : Bool) × (snapshot_descends_from (shop edges_after) "s2" "s1" ≡ ok b)
    × (b ≡ true → Matches (open_snapshot (shop edges_after)) "s1" second)
    × (b ≡ false → ¬ Matches (open_snapshot (shop edges_after)) "s1" second)
snapshot_descends_from_lem_example =
    snapshot_descends_from_lem (shop edges_after) "s2" "s1" second shop-IsHistory opens_second

sees_replacement : visible_supersessions (shop edges_after) "s2" ≡ ok edges_after
unfolding visible_supersessions atlas_py.Store.View.visible_from snapshot_descends_from
    open_snapshot atlas_py.Store.check_open atlas_py.Store.subscript get atlas_py.Store.View.ascend
sees_replacement = refl

-- The replaced record is masked, and what was derived from it is stale.
drops_stale : effective_record_ids (shop edges_after) "s2" ≡ ok ("need" ∷ "newer" ∷ [])
unfolding effective_record_ids open_snapshot atlas_py.Store.check_open atlas_py.Store.subscript get
    visible_supersessions atlas_py.Store.View.visible_from snapshot_descends_from
    atlas_py.Store.View.ascend atlas_py.Store.View.prune atlas_py.Store.View.prune_round contains
    keep atlas_py.Store.View.is_unmasked atlas_py.Store.View.is_stale atlas_py.Prelude.any
    atlas_py.Store.View.remove
drops_stale = refl

-- At the parent the replacement is out of sight.
keeps_history : effective_record_ids (shop edges_after) "s1" ≡ ok ("have" ∷ "need" ∷ "q" ∷ [])
unfolding effective_record_ids open_snapshot atlas_py.Store.check_open atlas_py.Store.subscript get
    visible_supersessions atlas_py.Store.View.visible_from snapshot_descends_from
    atlas_py.Store.View.ascend atlas_py.Store.View.prune atlas_py.Store.View.prune_round contains
    keep atlas_py.Store.View.is_unmasked atlas_py.Store.View.is_stale atlas_py.Prelude.any
keeps_history = refl

effective_record_ids_lem_example :
    (left : List String) × (effective_record_ids (shop edges_after) "s2"
      ≡ ok (keep (contains left) second.record_ids))
    × IsEffective (shop edges_after) second edges_after (keep (contains left) second.record_ids)
effective_record_ids_lem_example =
    effective_record_ids_lem (shop edges_after) "s2" second edges_after opens_second
      sees_replacement

shop-IsClosed : IsClosed (shop edges_after)
unfolding derivation_inputs contains get
shop-IsClosed = record {
  is_open = refl;
  recorded = λ x y h. ground (arith, eq_iff "q" x, eq_iff "need" y, eq_iff "have" y);
}

lists_inputs : transitive_dependencies (shop edges_after) "q" ≡ ok ("need" ∷ "have" ∷ [])
unfolding transitive_dependencies direct_dependencies atlas_py.Store.check_open get
    atlas_py.Graph.visit_all atlas_py.Graph.each derivation_inputs atlas_py.Graph.visit contains
lists_inputs = refl

transitive_dependencies_lem_example :
    (found : List String) × (transitive_dependencies (shop edges_after) "q" ≡ ok found)
    × ((y : String)
        → contains found y ≡ true ↔ (
            (x : String) × (contains (derivation_inputs (shop edges_after) "q") x ≡ true)
            × Reach (direct_dependencies (shop edges_after)) x y))
unfolding get
transitive_dependencies_lem_example =
    transitive_dependencies_lem (shop edges_after) "q" shop-IsClosed refl

visible_supersessions_lem_example :
    (visible : Dict Supersession) × (visible_supersessions (shop edges_after) "s2" ≡ ok visible)
    × ((k : String) → (has visible k ≡ true) ↔ ReplacedIn (shop edges_after) second edges_after k)
visible_supersessions_lem_example =
    visible_supersessions_lem (shop edges_after) "s2" second shop-IsHistory opens_second
