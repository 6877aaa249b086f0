-- ===== src/Problem/Stored/Status.antt =====
-- store.py: when `status_of` says that a decision is current, and when that it is stale.
use atlas_py.Errors.{>>-eq-ok, >>=-eq-ok, Result, err, ok, require, require-true}
use atlas_py.Graph.Walk.{Reach, ok_injective}
use atlas_py.Json.{Json}
use atlas_py.Model.Knowledge.{Supersession}
use atlas_py.Model.Snapshot.{Snapshot}
use atlas_py.Prelude.{
  Bool, Bool-cases, List, String, any, ap, arith, contains, false, if◌then◌else◌, inl, inr, none,
  refl, some, sym, true, ◌∙◌, ◌≡◌, ◌≢◌, ◌↔◌,
}
use atlas_py.Prelude.Dict.{Dict, get, has}
use atlas_py.Prelude.Members.{any_iff, contains_iff}
use atlas_py.Problem.{ArtifactStatus, Decision, GroundedDecisionProblem}
use atlas_py.Problem.Persisted.{validate_persisted_decision}
use atlas_py.Problem.Stored.{
  invalid_unless, is_caught, status_at, status_known, status_of, validate_stored,
}
use atlas_py.Rules.Ground.Bound.{get_of_subscript}
use atlas_py.Store.{Store, check_open, open_snapshot, subscript}
use atlas_py.Store.Ancestry.{IsHistory, open_snapshot-get}
use atlas_py.Store.Dependencies.{decision_dependency_closure, decision_reads, derivation_inputs}
use atlas_py.Store.Dependencies.Reachability.{decision_dependency_closure_lem}
use atlas_py.Store.Lineage.{Matches}
use atlas_py.Store.View.{snapshot_descends_from, visible_supersessions}
use atlas_py.Store.Visible.{ReplacedIn, descends_iff, visible_supersessions_lem}
use mathlib.Core.Path.{subst}

-- Something that the decision read, or that was derived on the way to it, is replaced by an edge
-- that was made at the snapshot or at one of its ancestors.
abbrev pub IsOutdated : Store → GroundedDecisionProblem → Snapshot → Type 0
IsOutdated s p current =
    (x : String) × (y : String) × (contains (decision_reads s p) x ≡ true)
    × Reach (λ ident. ok (derivation_inputs s ident)) x y
    × ReplacedIn s current s.supersessions y

-- What a status that is not invalid says.
pub record Judges (s : Store) (d : Decision) (current : Snapshot) (status : ArtifactStatus)
    : Type 0 where
  pub problem : GroundedDecisionProblem
  pub stored : get s.grounded_decision_problems d.source ≡ some problem
  pub descends : Matches (open_snapshot s) problem.snapshot current
  pub stale : (status ≡ ArtifactStatus.stale) ↔ IsOutdated s problem current
  pub fresh : (status ≡ ArtifactStatus.current) ↔ (¬ IsOutdated s problem current)

module _ (s : Store) (w : IsHistory s) (reference : String) (current : Snapshot)
    (opened : open_snapshot s reference ≡ ok current) where
  any-iff-IsOutdated :
      (p : GroundedDecisionProblem) (dependencies : List String) (visible : Dict Supersession)
      → decision_dependency_closure s p ≡ ok dependencies
      → visible_supersessions s reference ≡ ok visible
      → (any (has visible) dependencies ≡ true) ↔ IsOutdated s p current
  any-iff-IsOutdated p dependencies visible closed seen =
      let (reached, e1, is_reached) = decision_dependency_closure_lem s p in
      let (edges, e2, replaced) = visible_supersessions_lem s reference current w opened in
      let same1 : reached ≡ dependencies = ok_injective (sym e1 ∙ closed) in
      let same2 : edges ≡ visible = ok_injective (sym e2 ∙ seen) in
      let (there, back) = any_iff (has edges) reached in
      subst
        (λ (z : List String × Dict Supersession).
          (any (has z.1) z.0 ≡ true) ↔ IsOutdated s p current)
        (λ i. (same1 i, same2 i))
        (
          λ h.
              let (y, m, e) = there h in
              let (x, read, path) = (is_reached y).0 ((contains_iff reached y).1 m) in
              (x, y, read, path, (replaced y).0 e),
          λ (x, y, read, path, edge). back (
            y,
            (contains_iff reached y).0 ((is_reached y).1 (x, read, path)),
            (replaced y).1 edge,
          ),
        )

  judged :
      (d : Decision) (status : ArtifactStatus) (p : GroundedDecisionProblem) (b : Bool)
      → get s.grounded_decision_problems d.source ≡ some p
      → Matches (open_snapshot s) p.snapshot current
      → (b ≡ true) ↔ IsOutdated s p current
      → (if b then ArtifactStatus.stale else ArtifactStatus.current) ≡ status
      → Judges s d current status
  judged d status p true stored descends outdated e = record {
    problem = p;
    stored = stored;
    descends = descends;
    stale = (λ h. outdated.0 refl, λ o. sym e);
    fresh = (λ h. cc, λ fine. absurd (fine (outdated.0 refl)));
  }
  judged d status p false stored descends outdated e = record {
    problem = p;
    stored = stored;
    descends = descends;
    stale = (λ h. cc, λ o. cc (outdated.1 o));
    fresh = (λ h o. cc (outdated.1 o), λ fine. sym e);
  }

  module _ (digest : Json → String) where
    status_known-Judges :
        (d : Decision) (status : ArtifactStatus)
        → status_known digest s d reference ≡ ok status
        → Judges s d current status
    unfolding status_known
    status_known-Judges d status h =
        let (p, e1, h1) = >>=-eq-ok (subscript s.grounded_decision_problems d.source) _ h in
        let (valid, h2) = >>-eq-ok (validate_stored digest s p) h1 in
        let (decided, h3) = >>-eq-ok (validate_persisted_decision s d none) h2 in
        let (source, e4, h4) = >>=-eq-ok (open_snapshot s p.snapshot) _ h3 in
        let (descends, e5, h5) = >>=-eq-ok (snapshot_descends_from s reference source.id) _ h4 in
        let (below, h6) = >>-eq-ok (require descends _) h5 in
        let (dependencies, e7, h7) = >>=-eq-ok (decision_dependency_closure s p) _ h6 in
        let (visible, e8, h8) = >>=-eq-ok (visible_supersessions s reference) _ h7 in
        let named : source.id ≡ p.snapshot =
          w.same p.snapshot source (open_snapshot-get s w p.snapshot source e4) in
        judged d status p (any (has visible) dependencies)
          (get_of_subscript s.grounded_decision_problems d.source p e1)
          (subst (λ z. Matches (open_snapshot s) z current) named
            ((descends_iff s reference current w opened source.id).0
              (e5 ∙ ap ok (require-true _ below))))
          (any-iff-IsOutdated p dependencies visible e7 e8) (ok_injective h8)

invalid_unless_ok :
    (m : Result ArtifactStatus) (status : ArtifactStatus)
    → invalid_unless m ≡ ok status
    → status ≢ ArtifactStatus.invalid
    → m ≡ ok status
unfolding invalid_unless
invalid_unless_ok (ok st) status h valid = h
invalid_unless_ok (err e) status h valid = elim (Bool-cases (is_caught e)) [
  | inl caught ↦ absurd (valid (sym (ok_injective (rw caught at h))))
  | inr passed ↦ cc (rw passed at h)
]

-- In a well-formed history, a decision that `status_of` does not call invalid at a stored snapshot
-- has a stored problem whose snapshot is the reference or one of its ancestors. It is stale exactly
-- if something reached along the derivations from what the decision read is replaced by an edge made
-- at the reference or at one of its ancestors, and current exactly if nothing is.
pub status_of-Judges :
    (digest : Json → String) (s : Store) (ident reference : String) (current : Snapshot)
    (d : Decision) (status : ArtifactStatus)
    → IsHistory s
    → open_snapshot s reference ≡ ok current
    → get s.decisions ident ≡ some d
    → status_of digest s ident (some reference) ≡ ok status
    → status ≢ ArtifactStatus.invalid
    → Judges s d current status
unfolding status_of status_at
status_of-Judges digest s ident reference current d status w opened known h valid =
    let (is_open, h1) = >>-eq-ok (check_open s) h in
    let found = open_snapshot-get s w reference current opened in
    let h2 : status_at digest s (get s.decisions ident) reference ≡ ok status =
      ground (arith, found, h1) in
    let h3 : status_at digest s (some d) reference ≡ ok status =
      subst (λ o. status_at digest s o reference ≡ ok status) known h2 in
    status_known-Judges s w reference current opened digest d status
      (invalid_unless_ok (status_known digest s d reference) status h3 valid)
