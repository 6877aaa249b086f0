-- ===== src/Store/Prune.antt =====
-- The loop that withdraws derived records: it ends, and what is left is the greatest set of the
-- given ids whose derivations have all of their dependencies in it.
use atlas_py.Prelude.{
  ℕ, zero, suc, ◌≤◌, ◌<◌, String, Bool, true, false, not, ◌&&◌, ◌≡◌, refl, List, [], ◌∷◌, ◌==◌,
  arith, eq_iff, any, all, contains, contains-keep, keep, length, length-keep-le, Bool-cases, inl,
  inr,
}
use atlas_py.Prelude.Dict.{Dict}
use atlas_py.Errors.{ok}
use atlas_py.Model.Knowledge.{Derivation}
use atlas_py.Store.View.{remove, is_stale, prune_round, prune}

-- Each derivation whose id is in the list has all of its dependencies in it.
unfoldable pub all_supported : Dict Derivation → List String → Bool
all_supported ds ids = all (λ e. not (contains ids e.0 && is_stale ids e.1)) ds

abbrev pub Within : List String → List String → Type 0
Within xs ys = (x : String) → contains xs x ≡ true → contains ys x ≡ true

any-absent_mono :
    (xs ys ds : List String)
    → Within xs ys
    → any (λ x. not (contains ys x)) ds ≡ true
    → any (λ x. not (contains xs x)) ds ≡ true
unfolding any
any-absent_mono xs ys [] w h = h
any-absent_mono xs ys (d ∷ ds) w h = ground (arith, any-absent_mono xs ys ds w, w d)

is_stale_mono :
    (xs ys : List String) (d : Derivation)
    → Within xs ys
    → is_stale ys d ≡ true
    → is_stale xs d ≡ true
unfolding is_stale
is_stale_mono xs ys d w h = any-absent_mono xs ys d.dependencies w h

contains-remove :
    (x : String) (xs : List String) (y : String)
    → contains (remove x xs) y ≡ (contains xs y && not (x == y))
unfolding remove
contains-remove x xs y = contains-keep (λ z. not (x == z)) xs y

length-remove-lt :
    (x : String) (xs : List String) → contains xs x ≡ true → length (remove x xs) < length xs
unfolding remove contains keep
length-remove-lt x [] h = cc h
length-remove-lt x (y ∷ xs) h =
    ground
      (arith, length-remove-lt x xs, length-keep-le (λ z. not (x == z)) xs, eq_iff x y, eq_iff y x)

-- A round leaves all as it is, or shortens the list.
prune_round-length :
    (ds : Dict Derivation) (ids : List String) → length (prune_round ds ids).0 ≤ length ids
unfolding prune_round
prune_round-length [] ids = omega arith
prune_round-length ((id, d) ∷ ds) ids = ground (
  arith,
  prune_round-length ds ids,
  prune_round-length ds (remove id ids),
  length-remove-lt id ids,
)

prune_round-shorter :
    (ds : Dict Derivation) (ids : List String)
    → (prune_round ds ids).1 ≡ true
    → length (prune_round ds ids).0 < length ids
unfolding prune_round
prune_round-shorter [] ids h = cc h
prune_round-shorter ((id, d) ∷ ds) ids h = ground (
  arith,
  prune_round-shorter ds ids,
  prune_round-length ds (remove id ids),
  length-remove-lt id ids,
)

prune_round-settled :
    (ds : Dict Derivation) (ids : List String)
    → (prune_round ds ids).1 ≡ false
    → ((prune_round ds ids).0 ≡ ids) × (all_supported ds ids ≡ true)
unfolding prune_round all_supported all
prune_round-settled [] ids h = (refl, refl)
prune_round-settled ((id, d) ∷ ds) ids h = ground (arith, prune_round-settled ds ids)

prune_round-Within : (ds : Dict Derivation) (ids : List String) → Within (prune_round ds ids).0 ids
unfolding prune_round
prune_round-Within [] ids x h = h
prune_round-Within ((id, d) ∷ ds) ids x h = ground (
  arith,
  prune_round-Within ds ids x,
  prune_round-Within ds (remove id ids) x,
  contains-remove id ids x,
)

-- A supported set loses no member in a round.
prune_round-greatest :
    (ds : Dict Derivation) (set ids : List String)
    → all_supported ds set ≡ true
    → Within set ids
    → Within set (prune_round ds ids).0
unfolding prune_round all_supported all
prune_round-greatest [] set ids h w = w
prune_round-greatest ((id, d) ∷ ds) set ids h w =
    elim (Bool-cases (contains ids id && is_stale ids d)) [
      | inr kept ↦ rw kept (prune_round-greatest ds set ids (ground arith) w)
      | inl hit ↦ rw hit (
          prune_round-greatest ds set (remove id ids) (ground arith) (λ x m.
            ground (arith, contains-remove id ids x, w x, is_stale_mono set ids d w, eq_iff id x)))
    ]

-- With more fuel than ids the loop ends, in the greatest supported set within the given ids.
pub prune_lem :
    (fuel : ℕ) (ds : Dict Derivation) (ids : List String)
    → length ids < fuel
    → (left : List String) × (prune fuel ds ids ≡ ok left)
      × Within left ids
      × (all_supported ds left ≡ true)
      × ((set : List String) → all_supported ds set ≡ true → Within set ids → Within set left)
unfolding prune
prune_lem zero ds ids h = absurd (omega arith)
prune_lem (suc fuel) ds ids h = elim (Bool-cases (prune_round ds ids).1) [
  | inr settled ↦
      let (same, supported) = prune_round-settled ds ids settled in
      (ids, ground arith, λ x m. m, supported, λ set _ w. w)
  | inl removed ↦
      let (left, e, within, supported, greatest) =
        prune_lem fuel ds (prune_round ds ids).0
          (omega (arith, prune_round-shorter ds ids removed)) in
      (
        left,
        ground (arith, e),
        λ x m. prune_round-Within ds ids x (within x m),
        supported,
        λ set s w. greatest set s (prune_round-greatest ds set ids s w),
      )
]
