-- ===== src/Store/Visible.antt =====
-- store.py: what `_visible_supersessions` returns in a well-formed history.
use mathlib.Core.List.{Memᴰ}
use mathlib.Core.List.Memᴰ.{cases_cons, head, tail}
use mathlib.Core.Path.{subst}
use atlas_py.Prelude.{
  Bool, true, false, String, [], ◌∷◌, ◌≡◌, ◌↔◌, ◌∙◌, ◌==◌, Bool-cases, if◌then◌else◌, refl, sym, ap,
  arith, eq_iff, inl, inr,
}
use atlas_py.Prelude.Dict.{Dict, get, has}
use atlas_py.Errors.{ok, >>=-of_ok}
use atlas_py.Graph.Walk.{ok_injective}
use atlas_py.Model.Knowledge.{Supersession}
use atlas_py.Model.Snapshot.{Snapshot}
use atlas_py.Store.{Store, open_snapshot}
use atlas_py.Store.Ancestry.{IsHistory, snapshot_descends_from_lem}
use atlas_py.Store.Lineage.{Matches}
use atlas_py.Store.View.{snapshot_descends_from, visible_from, visible_supersessions}

-- A replacement of `k` by an edge of the list that was made at the snapshot or at an ancestor of it.
abbrev pub ReplacedIn : Store → Snapshot → Dict Supersession → String → Type 0
ReplacedIn s current edges k =
    (edge : Supersession) × Memᴰ (k, edge) edges × Matches (open_snapshot s) edge.snapshot current

module _ (s : Store) (reference : String) (current : Snapshot) (w : IsHistory s)
    (opened : open_snapshot s reference ≡ ok current) where
  pub descends_iff :
      (ancestor : String)
      → (snapshot_descends_from s reference ancestor ≡ ok true)
        ↔ Matches (open_snapshot s) ancestor current
  descends_iff ancestor =
      let (b, e, match, differ) =
        snapshot_descends_from_lem s reference ancestor current w opened in
      (
        λ h. match (ok_injective (sym e ∙ h)),
        λ m. e ∙ ap ok (not_false b (λ no_match. differ no_match m)),
      )
    where
      not_false : (b : Bool) → ¬ (b ≡ false) → b ≡ true
      not_false true h = refl
      not_false false h = absurd (h refl)

  -- One more edge at the front, kept if its snapshot is seen.
  extend :
      (b : Bool) (old : String) (edge : Supersession) (edges rest : Dict Supersession) (k : String)
      → (b ≡ true → Matches (open_snapshot s) edge.snapshot current)
      → (b ≡ false → ¬ Matches (open_snapshot s) edge.snapshot current)
      → (has rest k ≡ true) ↔ ReplacedIn s current edges k
      → (has (if b then (old, edge) ∷ rest else rest) k ≡ true)
        ↔ ReplacedIn s current ((old, edge) ∷ edges) k
  unfolding get
  extend true old edge edges rest k match differ later = (
    λ h. elim (Bool-cases (old == k)) [
      | inl e ↦ (edge, head (ap (λ z. (z, edge)) (sym ((eq_iff old k).0 e))), match refl)
      | inr e ↦ let (x, m, r) = later.0 (rw e at h) in (x, tail m, r)
    ],
    λ (x, m, r). elim (Bool-cases (old == k)) [
      | inl e ↦ rw e refl
      | inr e ↦ rw e (elim (cases_cons m) [
        | inl same ↦
            absurd (ground (arith, e, eq_iff old k, ap (λ (z : String × Supersession). z.0) same))
        | inr there ↦ later.1 (x, there, r)
      ])
    ],
  )
  extend false old edge edges rest k match differ later = (
    λ h. let (x, m, r) = later.0 h in (x, tail m, r),
    λ (x, m, r). elim (cases_cons m) [
      | inl same ↦ absurd (
          differ refl (
            subst (λ (z : String × Supersession). Matches (open_snapshot s) z.1.snapshot current)
              same r))
      | inr there ↦ later.1 (x, there, r)
    ],
  )

  visible_from_lem :
      (edges : Dict Supersession)
      → (visible : Dict Supersession) × (visible_from s reference edges ≡ ok visible)
        × ((k : String) → (has visible k ≡ true) ↔ ReplacedIn s current edges k)
  unfolding visible_from get
  visible_from_lem [] = ([], refl, λ k. (λ h. cc, λ (edge, m, r). elim m [ ]))
  visible_from_lem ((old, edge) ∷ edges) =
      let (b, e, match, differ) =
        snapshot_descends_from_lem s reference edge.snapshot current w opened in
      let (rest, found, later) = visible_from_lem edges in
      (
        if b then (old, edge) ∷ rest else rest,
        >>=-of_ok _ e (>>=-of_ok _ found refl),
        λ k. extend b old edge edges rest k match differ (later k),
      )

-- In a well-formed history the supersessions that a stored snapshot sees are computed, and replace
-- exactly the records that an edge replaces which was made at that snapshot or at one of its
-- ancestors.
pub visible_supersessions_lem :
    (s : Store) (reference : String) (current : Snapshot)
    → IsHistory s
    → open_snapshot s reference ≡ ok current
    → (visible : Dict Supersession) × (visible_supersessions s reference ≡ ok visible)
      × ((k : String) → (has visible k ≡ true) ↔ ReplacedIn s current s.supersessions k)
unfolding visible_supersessions
visible_supersessions_lem s reference current w opened =
    visible_from_lem s reference current w opened s.supersessions
