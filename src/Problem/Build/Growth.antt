-- ===== src/Problem/Build/Growth.antt =====
-- store.py: a snapshot that is created keeps what the evaluation of scopes and the construction of
-- problems ask of the history.
use atlas_py.Errors.{>>-eq-ok, ok, refuse, require, require-true}
use atlas_py.Model.Snapshot.{Snapshot, check_references, check_snapshot}
use atlas_py.Prelude.{
  Option, String, all, arith, contains, distinct, inl, inr, map, sym, true, ◌&&◌, ◌≡◌,
}
use atlas_py.Prelude.Dict.{contains-keys, has, keys}
use atlas_py.Prelude.Order.{contains-sorted_set}
use atlas_py.Problem.Build.Accepted.{DefinesRulesOnce}
use atlas_py.Problem.Build.Rule.{rule_ids}
use atlas_py.Scope.Validate.Accepted.{HoldsRecords}
use atlas_py.Store.{Store, check_open}
use atlas_py.Store.History.{create_snapshot, is_unresolved, snapshot_of_store}
use atlas_py.Store.History.Growth.{create_snapshot-IsNew, stored_in_put}
use atlas_py.Values.{nonempty}
use mathlib.Core.Path.{subst}

check_snapshot-rules :
    (v : Snapshot) → check_snapshot v ≡ ok tt → distinct (rule_ids v.rule_definitions) ≡ true
unfolding check_snapshot
check_snapshot-rules v h =
    let (a, h1) = >>-eq-ok (require (distinct v.record_ids) _) h in
    let (b, h2) = >>-eq-ok (check_references v.predicate_versions) h1 in
    let (c, h3) = >>-eq-ok (check_references v.property_versions) h2 in
    let (d, h4) = >>-eq-ok (check_references v.rule_versions) h3 in
    let (e, h5) = >>-eq-ok (require (distinct v.context_ids) _) h4 in
    let (f, h6) = >>-eq-ok (require (all (λ x. nonempty x.id) v.context_definitions) _) h5 in
    let (g, h7) = >>-eq-ok (require (distinct (map (λ x. x.id) v.context_definitions)) _) h6 in
    let (i, h8) =
      >>-eq-ok (require (all (λ x. nonempty x.id && nonempty x.version) v.rule_definitions) _) h7 in
    let (j, h9) = >>-eq-ok (require (distinct (map (λ x. x.id) v.rule_definitions)) _) h8 in
    require-true _ j

create_snapshot-checked :
    (s after : Store) (ident : String) (parent : Option String)
    → create_snapshot s ident parent ≡ ok after
    → check_snapshot (snapshot_of_store s ident parent) ≡ ok tt
unfolding create_snapshot
create_snapshot-checked s after ident parent h =
    let (is_open, h1) = >>-eq-ok (check_open s) h in
    let (fresh, h2) = >>-eq-ok (refuse (has s.snapshots ident) _) h1 in
    let (known, h3) = >>-eq-ok (refuse (is_unresolved s parent) _) h2 in
    let (checked, h4) = >>-eq-ok (check_snapshot (snapshot_of_store s ident parent)) h3 in checked

new_holds :
    (s : Store) (ident x : String) (parent : Option String)
    → contains (snapshot_of_store s ident parent).record_ids x ≡ true
    → has s.records x ≡ true
unfolding snapshot_of_store
new_holds s ident x parent m =
    ground (arith, m, contains-sorted_set (keys s.records) x, contains-keys s.records x)

-- Where each snapshot holds records of the store and defines each rule once, a snapshot that is
-- created leaves it so.
pub create_snapshot-HoldsRecords :
    (s after : Store) (ident : String) (parent : Option String)
    → HoldsRecords s
    → DefinesRulesOnce s
    → create_snapshot s ident parent ≡ ok after
    → HoldsRecords after × DefinesRulesOnce after
create_snapshot-HoldsRecords s after ident parent held once h =
    let (fresh, known, same) = create_snapshot-IsNew s after ident parent h in
    let new = snapshot_of_store s ident parent in
    subst (λ z. HoldsRecords z × DefinesRulesOnce z) (sym same)
      (
        λ k x v e m. elim (stored_in_put s.snapshots new.id k new v e) [
          | inl (here, is_new) ↦
              new_holds s ident x parent
                (subst (λ z. contains z.record_ids x ≡ true) (sym is_new) m)
          | inr old ↦ held k x v old m
        ],
        λ k v e. elim (stored_in_put s.snapshots new.id k new v e) [
          | inl (here, is_new) ↦
              subst (λ z. distinct (rule_ids z.rule_definitions) ≡ true) is_new
                (check_snapshot-rules new (create_snapshot-checked s after ident parent h))
          | inr old ↦ once k v old
        ],
      )
