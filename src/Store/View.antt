-- ===== src/Store/View.antt =====
-- store.py: the records that are effective at a snapshot: `_snapshot_descends_from`,
-- `_visible_supersessions` and `_effective_record_ids`.
use atlas_py.Prelude.{
  ℕ, zero, suc, String, Bool, true, false, not, ◌&&◌, ◌||◌, none, some, List, [], ◌∷◌, map, ◌==◌,
  any, contains, keep, length, if◌then◌else◌,
}
use atlas_py.Prelude.Dict.{Dict, keys}
use atlas_py.Errors.{Result, ok, err, out_of_fuel, ◌>>=◌}
use atlas_py.Model.Knowledge.{Supersession, Derivation}
use atlas_py.Model.Snapshot.{Snapshot}
use atlas_py.Store.{Store, open_snapshot}

-- The `while` loop over the parents; `next` is `self.open_snapshot`.
module _ (next : String → Result Snapshot) (ancestor : String) where
  unfoldable pub ascend : ℕ → List String → Snapshot → Result Bool
  ascend zero seen current = err out_of_fuel
  ascend (suc fuel) seen current = elim (current.id == ancestor) [
    | true ↦ ok true
    | false ↦ elim current.parent [
      | none ↦ ok false
      | some parent ↦ elim (contains seen parent) [
        | true ↦ ok false
        | false ↦ do above ← next parent; ascend fuel (current.id ∷ seen) above
      ]
    ]
  ]

-- Each round but the last marks a snapshot that was not marked, or repeats one that is its own
-- parent.
abbrev pub ascend_fuel : Store → ℕ
ascend_fuel s = suc (suc (length s.snapshots))

unfoldable pub snapshot_descends_from : Store → String → String → Result Bool
snapshot_descends_from s descendant ancestor = do
  current ← open_snapshot s descendant
  ascend (open_snapshot s) ancestor (ascend_fuel s) [] current

-- The edges whose snapshot is the given one or an ancestor of it. Only the keys and the targets of
-- the result are read, so the order of `sorted` is left out.
unfoldable pub visible_from : Store → String → Dict Supersession → Result (Dict Supersession)
visible_from s snapshot [] = ok []
visible_from s snapshot ((old, edge) ∷ edges) = do
  seen ← snapshot_descends_from s snapshot edge.snapshot
  rest ← visible_from s snapshot edges
  ok (if seen then (old, edge) ∷ rest else rest)

unfoldable pub visible_supersessions : Store → String → Result (Dict Supersession)
visible_supersessions s snapshot = visible_from s snapshot s.supersessions

abbrev pub targets : Dict Supersession → List String
targets edges = map (λ e. e.1.new) edges

-- Neither masked by a visible edge, nor the target of edges that are all out of sight.
unfoldable pub is_unmasked : Dict Supersession → Dict Supersession → String → Bool
is_unmasked all_edges visible x =
    not (contains (keys visible) x)
    && not (contains (targets all_edges) x && not (contains (targets visible) x))

unfoldable pub remove : String → List String → List String
remove x xs = keep (λ y. not (x == y)) xs

-- A dependency that is not effective.
unfoldable pub is_stale : List String → Derivation → Bool
is_stale effective d = any (λ x. not (contains effective x)) d.dependencies

-- One round of the inner `for`: the ids that are left, and whether one was removed.
unfoldable pub prune_round : Dict Derivation → List String → List String × Bool
prune_round [] effective = (effective, false)
prune_round ((id, d) ∷ ds) effective =
    let hit = contains effective id && is_stale effective d in
    let round = prune_round ds (if hit then remove id effective else effective) in
    (round.0, hit || round.1)

-- The `while changed` loop.
unfoldable pub prune : ℕ → Dict Derivation → List String → Result (List String)
prune zero ds effective = err out_of_fuel
prune (suc fuel) ds effective =
    let round = prune_round ds effective in
    elim round.1 [ true ↦ prune fuel ds round.0 | false ↦ ok round.0 ]

unfoldable pub effective_record_ids : Store → String → Result (List String)
effective_record_ids s snapshot_id = do
  snapshot ← open_snapshot s snapshot_id
  visible ← visible_supersessions s snapshot.id
  effective ←
      prune (suc (length snapshot.record_ids)) s.derivations
        (keep (is_unmasked s.supersessions visible) snapshot.record_ids)
  ok (keep (contains effective) snapshot.record_ids)
