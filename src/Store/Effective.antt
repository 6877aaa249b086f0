-- ===== src/Store/Effective.antt =====
-- What `_effective_record_ids` returns.
use atlas_py.Prelude.{
  suc, String, true, not, ◌≡◌, refl, List, [], ◌∷◌, arith, all, any, contains, contains-keep, keep,
  length, length-keep-le,
}
use atlas_py.Prelude.Dict.{Dict}
use atlas_py.Errors.{ok}
use atlas_py.Model.Knowledge.{Supersession, Derivation}
use atlas_py.Model.Snapshot.{Snapshot}
use atlas_py.Store.{Store, open_snapshot}
use atlas_py.Store.View.{visible_supersessions, is_unmasked, is_stale, effective_record_ids}
use atlas_py.Store.Prune.{all_supported, Within, prune_lem}

-- The ids of the snapshot that no replacement masks.
abbrev pub Unmasked : Store → Snapshot → Dict Supersession → List String → Type 0
Unmasked s snapshot visible ids =
    (x : String)
    → contains ids x ≡ true
    → (contains snapshot.record_ids x ≡ true) × (is_unmasked s.supersessions visible x ≡ true)

-- The greatest set of unmasked ids in which each derived id has its dependencies.
pub record IsEffective (s : Store) (snapshot : Snapshot) (visible : Dict Supersession)
    (ids : List String) : Type 0 where
  pub unmasked : Unmasked s snapshot visible ids
  pub supported : all_supported s.derivations ids ≡ true
  pub greatest :
      (set : List String)
      → Unmasked s snapshot visible set
      → all_supported s.derivations set ≡ true
      → Within set ids

any-absent_ext :
    (xs ys ds : List String)
    → ((x : String) → contains xs x ≡ contains ys x)
    → any (λ x. not (contains xs x)) ds ≡ any (λ x. not (contains ys x)) ds
unfolding any
any-absent_ext xs ys [] same = refl
any-absent_ext xs ys (d ∷ ds) same = ground (arith, any-absent_ext xs ys ds same, same d)

all_supported_ext :
    (ds : Dict Derivation) (xs ys : List String)
    → ((x : String) → contains xs x ≡ contains ys x)
    → all_supported ds xs ≡ all_supported ds ys
unfolding all_supported all is_stale
all_supported_ext [] xs ys same = refl
all_supported_ext ((id, d) ∷ ds) xs ys same =
    ground
      (arith, all_supported_ext ds xs ys same, same id, any-absent_ext xs ys d.dependencies same)

-- The final filter keeps the members: they are all ids of the snapshot.
contains-final :
    (listed left : List String)
    → Within left listed
    → (x : String) → contains (keep (contains left) listed) x ≡ contains left x
contains-final listed left w x = ground (arith, contains-keep (contains left) listed x, w x)

-- Where the snapshot is there and the visible edges are found, `_effective_record_ids` returns, in
-- the order of the snapshot, the greatest set of its ids that no edge masks in which each derived
-- record has all of its dependencies; its loop ends.
pub effective_record_ids_lem :
    (s : Store) (id : String) (snapshot : Snapshot) (visible : Dict Supersession)
    → open_snapshot s id ≡ ok snapshot
    → visible_supersessions s snapshot.id ≡ ok visible
    → (left : List String) × (effective_record_ids s id
        ≡ ok (keep (contains left) snapshot.record_ids))
      × IsEffective s snapshot visible (keep (contains left) snapshot.record_ids)
unfolding effective_record_ids
effective_record_ids_lem s id snapshot visible opened found =
    let listed = snapshot.record_ids in
    let free = keep (is_unmasked s.supersessions visible) listed in
    let (left, e, within, supported, greatest) =
      prune_lem (suc (length listed)) s.derivations free
        (omega (arith, length-keep-le (is_unmasked s.supersessions visible) listed)) in
    let mask = λ (x : String). contains-keep (is_unmasked s.supersessions visible) listed x in
    let final = contains-final listed left (λ x m. ground (arith, within x m, mask x)) in
    (
      left,
      rw (opened, found, e),
      record {
        unmasked = λ x m. ground (arith, final x, within x, mask x);
        supported =
            rw (all_supported_ext s.derivations (keep (contains left) listed) left final) supported;
        greatest = λ set free_set closed x m.
            ground (
              arith,
              final x,
              greatest set closed (λ y k. ground (arith, free_set y k, mask y)) x m,
            );
      },
    )
