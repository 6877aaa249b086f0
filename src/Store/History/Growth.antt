-- ===== src/Store/History/Growth.antt =====
-- The history of snapshots grows and stays well-formed.
use mathlib.Core.Path.{subst}
use atlas_py.Prelude.{
  String, ◌≡◌, refl, sym, ap, ◌∙◌, ◌⊎◌, inl, inr, Bool, true, false, Option, none, some, ◌==◌,
  arith, eq_iff, if◌then◌else◌, Bool-cases, some_injective,
}
use atlas_py.Prelude.Dict.{Dict, get, put, has, get-put}
use atlas_py.Errors.{AtlasError, ok, validation_error, admission_error, refuse, >>-eq-ok}
use atlas_py.Graph.Walk.{ok_injective}
use atlas_py.Model.Snapshot.{Snapshot, check_snapshot}
use atlas_py.Store.{Store, check_open}
use atlas_py.Store.Ancestry.{IsHistory}
use atlas_py.Store.History.{snapshot_of_store, is_unresolved, with_snapshot, create_snapshot}

refuse-false : (b : Bool) (e : AtlasError) → refuse b e ≡ ok tt → b ≡ false
refuse-false true e h = cc
refuse-false false e h = refl

-- The tests that a new snapshot passes.
abbrev pub IsNew : Store → String → Option String → Store → Type 0
IsNew s ident parent after =
    (has s.snapshots ident ≡ false)
    × (is_unresolved s parent ≡ false)
    × (after ≡ with_snapshot s (snapshot_of_store s ident parent))

pub create_snapshot-IsNew :
    (s after : Store) (ident : String) (parent : Option String)
    → create_snapshot s ident parent ≡ ok after
    → IsNew s ident parent after
unfolding create_snapshot
create_snapshot-IsNew s after ident parent h =
    let (opened, h1) = >>-eq-ok (check_open s) h in
    let (fresh, h2) =
      >>-eq-ok (refuse (has s.snapshots ident) (admission_error "duplicate snapshot identity"))
        h1 in
    let (known, h3) =
      >>-eq-ok (refuse (is_unresolved s parent) (validation_error "unresolved snapshot parent"))
        h2 in
    let (checked, h4) = >>-eq-ok (check_snapshot (snapshot_of_store s ident parent)) h3 in
    (refuse-false _ _ fresh, refuse-false _ _ known, sym (ok_injective h4))

-- A snapshot that is stored is not changed by the creation of another.
pub create_snapshot_kept :
    (s after : Store) (ident : String) (parent : Option String) (k : String) (v : Snapshot)
    → create_snapshot s ident parent ≡ ok after
    → get s.snapshots k ≡ some v
    → get after.snapshots k ≡ some v
unfolding snapshot_of_store
create_snapshot_kept s after ident parent k v h e =
    let (fresh, known, same) = create_snapshot-IsNew s after ident parent h in
    subst (λ z. get z.snapshots k ≡ some v) (sym same) (kept fresh)
  where
    kept :
        has s.snapshots ident ≡ false
        → get (put s.snapshots ident (snapshot_of_store s ident parent)) k ≡ some v
    kept fresh = ground (
      arith,
      get-put s.snapshots ident k (snapshot_of_store s ident parent),
      eq_iff ident k,
      e,
      fresh,
    )

parent-known :
    (s : Store) (parent : Option String) (p : String)
    → is_unresolved s parent ≡ false
    → parent ≡ some p
    → has s.snapshots p ≡ true
unfolding is_unresolved
parent-known s none p h e = cc
parent-known s (some q) p h e = ground (arith, eq_iff q p)

pub stored_in_put :
    (d : Dict Snapshot) (k other : String) (new v : Snapshot)
    → get (put d k new) other ≡ some v
    → ((k ≡ other) × (new ≡ v)) ⊎ (get d other ≡ some v)
stored_in_put d k other new v h = elim (Bool-cases (k == other)) [
  | inl same ↦ inl (
    ground (arith, eq_iff k other),
    some_injective
        (sym (get-put d k other new ∙ ap (λ b. if b then some new else get d other) same) ∙ h),
  )
  | inr apart ↦
      inr (sym (get-put d k other new ∙ ap (λ b. if b then some new else get d other) apart) ∙ h)
]

has-put :
    (d : Dict Snapshot) (k other : String) (new : Snapshot)
    → has d other ≡ true
    → has (put d k new) other ≡ true
has-put d k other new h = ground (arith, get-put d k other new)

with_snapshot-IsHistory :
    (s : Store) (new : Snapshot)
    → IsHistory s
    → ((p : String) → new.parent ≡ some p → has s.snapshots p ≡ true)
    → IsHistory (with_snapshot s new)
with_snapshot-IsHistory s new w known = record {
  is_open = w.is_open;
  same = λ k v e. elim (stored_in_put s.snapshots new.id k new v e) [
    | inl (here, is_new) ↦ sym (ap (λ z. z.id) is_new) ∙ here
    | inr old ↦ w.same k v old
  ];
  parents = λ k p v e up.
      has-put s.snapshots new.id p new (elim (stored_in_put s.snapshots new.id k new v e) [
        | inl (here, is_new) ↦ known p (ap (λ z. z.parent) is_new ∙ up)
        | inr old ↦ w.parents k p v old up
      ]);
}

-- In an open store whose snapshots stand under their ids and have their parents in the store, a
-- snapshot that is created leaves it so.
pub create_snapshot-IsHistory :
    (s after : Store) (ident : String) (parent : Option String)
    → IsHistory s
    → create_snapshot s ident parent ≡ ok after
    → IsHistory after
unfolding snapshot_of_store
create_snapshot-IsHistory s after ident parent w h =
    let (fresh, known, same) = create_snapshot-IsNew s after ident parent h in
    subst IsHistory (sym same) (
      with_snapshot-IsHistory s (snapshot_of_store s ident parent) w
        (λ p up. parent-known s parent p known up))
