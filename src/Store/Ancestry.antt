-- ===== src/Store/Ancestry.antt =====
-- `_snapshot_descends_from` over a well-formed history.
use mathlib.Core.Path.{subst}
use atlas_py.Prelude.{
  ℕ, zero, suc, ◌<◌, String, Bool, true, false, ◌≡◌, refl, sym, inl, inr, some, List, [], ◌∷◌, ◌==◌,
  arith, contains, length, Bool-cases, Option-cases,
}
use atlas_py.Prelude.Counting.{unseen, unseen-cons-lt, unseen-le-length}
use atlas_py.Prelude.Dict.{Dict, get, keys, has, contains-keys}
use atlas_py.Errors.{Result, ok}
use atlas_py.Graph.Walk.{contains-cons_cases, absurd_contains}
use atlas_py.Model.Snapshot.{Snapshot}
use atlas_py.Store.{Store, check_open, subscript, open_snapshot}
use atlas_py.Store.View.{ascend, ascend_fuel, snapshot_descends_from}
use atlas_py.Store.Lineage.{IsKeyed, Explored, Matches, onward, ascend-decides}

module _ (next : String → Result Snapshot) (ancestor : String) (ks : List String)
    (k : IsKeyed next ks)
    (resolve : (c : Snapshot) (p : String)
      → next c.id ≡ ok c
      → c.parent ≡ some p
      → (d : Snapshot) × (next p ≡ ok d)) where
  -- A marked snapshot has a marked parent, so the loop ends there.
  marked_parent :
      (seen : List String) (current : Snapshot) (p : String)
      → Explored next ancestor seen current
      → contains seen current.id ≡ true
      → current.parent ≡ some p
      → contains seen p ≡ true
  marked_parent seen current p x m parent =
      elim (contains-cons_cases current.id seen p
        (x.closed current.id current p m x.stored parent)) [
          | inl same ↦ subst (λ z. contains seen z ≡ true) same m
          | inr old ↦ old
        ]

  ascend-ends :
      (fuel : ℕ) (seen : List String) (current : Snapshot)
      → Explored next ancestor seen current
      → unseen seen ks < fuel
      → (b : Bool) × (ascend next ancestor fuel seen current ≡ ok b)
  unfolding ascend
  ascend-ends zero seen current x h = absurd (omega arith)
  ascend-ends (suc fuel) seen current x h = elim (Bool-cases (current.id == ancestor)) [
    | inl found ↦ (true, ground arith)
    | inr other ↦ elim (Option-cases current.parent) [
      | inl root ↦ (false, ground arith)
      | inr (p, parent) ↦ elim (Bool-cases (contains seen p)) [
        | inl marked ↦ (false, ground arith)
        | inr new ↦
            let (above, found) = resolve current p x.stored parent in
            let fresh : contains seen current.id ≡ false =
              ground (arith, marked_parent seen current p x) in
            let (b, e) =
              ascend-ends fuel (current.id ∷ seen) above
                (onward next ancestor ks k seen current above p x other parent found)
                (omega (
                  arith,
                  unseen-cons-lt seen ks current.id fresh (k.listed current.id current x.stored),
                )) in
            (b, ground (arith, e))
      ]
    ]
  ]

-- A history as `snapshot` builds it: each snapshot is stored under its id, and its parent is there.
pub record IsHistory (s : Store) : Type 0 where
  pub is_open : s.closed ≡ false
  pub same : (k : String) (v : Snapshot) → get s.snapshots k ≡ some v → v.id ≡ k
  pub parents :
      (k p : String) (v : Snapshot)
      → get s.snapshots k ≡ some v
      → v.parent ≡ some p
      → has s.snapshots p ≡ true

module _ (s : Store) (w : IsHistory s) where
  pub open_snapshot-get :
      (k : String) (v : Snapshot) → open_snapshot s k ≡ ok v → get s.snapshots k ≡ some v
  unfolding open_snapshot check_open subscript
  open_snapshot-get k v h = ground (arith, w.is_open)

  get-open_snapshot :
      (k : String) (v : Snapshot) → get s.snapshots k ≡ some v → open_snapshot s k ≡ ok v
  unfolding open_snapshot check_open subscript
  get-open_snapshot k v h = ground (arith, w.is_open)

  open_snapshot-IsKeyed : IsKeyed (open_snapshot s) (keys s.snapshots)
  open_snapshot-IsKeyed = record {
    same = λ p d h. w.same p d (open_snapshot-get p d h);
    listed = λ p d h. ground (arith, contains-keys s.snapshots p, open_snapshot-get p d h);
    honest = λ p. unfold open_snapshot check_open subscript in (λ h. ground (arith, w.is_open));
  }

  resolve :
      (c : Snapshot) (p : String)
      → open_snapshot s c.id ≡ ok c
      → c.parent ≡ some p
      → (d : Snapshot) × (open_snapshot s p ≡ ok d)
  resolve c p stored parent = elim (Option-cases (get s.snapshots p)) [
    | inr (d, e) ↦ (d, get-open_snapshot p d e)
    | inl absent ↦ absurd (ground (arith, w.parents c.id p c (open_snapshot-get c.id c stored)))
  ]

  length-keys : {V : Type 0} (d : Dict V) → length (keys d) ≡ length d
  length-keys [] = refl
  length-keys (e ∷ d) = omega (arith, length-keys d)

-- In an open store whose snapshots stand under their ids and have their parents in the store, the
-- test for descent from a stored snapshot ends without an error, and answers yes exactly if the
-- ancestor's id is that of the snapshot or of one that is reached from it along the parents.
pub snapshot_descends_from_lem :
    (s : Store) (descendant ancestor : String) (current : Snapshot)
    → IsHistory s
    → open_snapshot s descendant ≡ ok current
    → (b : Bool) × (snapshot_descends_from s descendant ancestor ≡ ok b)
      × (b ≡ true → Matches (open_snapshot s) ancestor current)
      × (b ≡ false → ¬ Matches (open_snapshot s) ancestor current)
unfolding snapshot_descends_from
snapshot_descends_from_lem s descendant ancestor current w opened =
    let next = open_snapshot s in
    let k = open_snapshot-IsKeyed s w in
    let ks = keys s.snapshots in
    let start : Explored next ancestor [] current = record {
      stored = subst (λ z. next z ≡ ok current) (sym (k.same descendant current opened)) opened;
      differ = λ x m. absurd_contains x m;
      closed = λ x c p m. absurd_contains x m;
    } in
    let (b, e) =
      ascend-ends next ancestor ks k (resolve s w) (ascend_fuel s) [] current start
        (omega (arith, unseen-le-length [] ks, length-keys s w s.snapshots)) in
    let (yes_case, no_case) =
      ascend-decides next ancestor ks k (ascend_fuel s) [] current b start e in
    (b, rw opened e, yes_case, no_case)
