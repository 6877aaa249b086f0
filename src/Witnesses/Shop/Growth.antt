-- ===== src/Witnesses/Shop/Growth.antt =====
-- A third snapshot of that store.
use atlas_py.Prelude.{
  String, ◌≡◌, refl, Bool, true, false, Option, none, some, List, [], ◌∷◌, arith, contains,
  distinct, eq_iff,
}
use atlas_py.Prelude.Dict.{get}
use atlas_py.Errors.{ok}
use atlas_py.Model.Snapshot.{Snapshot}
use atlas_py.Store.{Store}
use atlas_py.Store.Ancestry.{IsHistory}
use atlas_py.Store.History.{with_snapshot, create_snapshot}
use atlas_py.Store.History.Growth.{create_snapshot_kept, create_snapshot-IsHistory}
use atlas_py.Witnesses.Shop.{first, shop, edges_after}
use atlas_py.Witnesses.Shop.Views.{shop-IsHistory}
use atlas_py.Problem.Build.Accepted.{DefinesRulesOnce}
use atlas_py.Problem.Build.Growth.{create_snapshot-HoldsRecords}
use atlas_py.Scope.Validate.Accepted.{HoldsRecords}

abbrev third : Snapshot
third = record {
  id = "s3";
  parent = some "s2";
  record_ids = "have" ∷ "need" ∷ "newer" ∷ "q" ∷ [];
  predicate_versions = ("fits", "1") ∷ [];
  property_versions = ("needs", "1") ∷ ("offers", "1") ∷ [];
  rule_versions = [];
  context_ids = [];
  context_definitions = [];
  rule_definitions = [];
  description_ids = "part" ∷ "slot" ∷ [];
}

abbrev grown : Store
grown = with_snapshot (shop edges_after) third

grows : create_snapshot (shop edges_after) "s3" (some "s2") ≡ ok grown
unfolding create_snapshot atlas_py.Store.check_open get atlas_py.Store.History.is_unresolved
    atlas_py.Model.Snapshot.check_snapshot atlas_py.Prelude.distinct
    atlas_py.Store.History.snapshot_of_store atlas_py.Prelude.Order.sorted_set
    atlas_py.Prelude.Order.insert_sorted atlas_py.Prelude.Order.text_lt
    atlas_py.Model.Snapshot.check_references atlas_py.Prelude.all atlas_py.Store.History.sort_pairs
    atlas_py.Vocabulary.latest_versions atlas_py.Vocabulary.newer atlas_py.Store.History.insert_pair
    atlas_py.Store.History.values_at
grows = refl

create_snapshot_kept_example : get grown.snapshots "s1" ≡ some first
unfolding get
create_snapshot_kept_example =
    create_snapshot_kept (shop edges_after) grown "s3" (some "s2") "s1" first grows refl

create_snapshot-IsHistory_example : IsHistory grown
create_snapshot-IsHistory_example =
    create_snapshot-IsHistory (shop edges_after) grown "s3" (some "s2") shop-IsHistory grows

shop-HoldsRecords : HoldsRecords (shop edges_after)
unfolding get contains
shop-HoldsRecords k x v h m = ground (
  arith,
  eq_iff "s1" k,
  eq_iff "s2" k,
  eq_iff "need" x,
  eq_iff "have" x,
  eq_iff "newer" x,
  eq_iff "q" x,
)

shop-DefinesRulesOnce : DefinesRulesOnce (shop edges_after)
unfolding get distinct contains
shop-DefinesRulesOnce k v h = ground (arith, eq_iff "s1" k, eq_iff "s2" k)

create_snapshot-HoldsRecords_example : HoldsRecords grown × DefinesRulesOnce grown
create_snapshot-HoldsRecords_example =
    create_snapshot-HoldsRecords (shop edges_after) grown "s3" (some "s2") shop-HoldsRecords
      shop-DefinesRulesOnce grows
