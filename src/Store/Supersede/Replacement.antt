-- ===== src/Store/Supersede/Replacement.antt =====
-- Which replacements `supersede` admits, and what it changes in the store.
use atlas_py.Prelude.{
  ℕ, String, Option, none, some, Option-cases, true, false, ◌≡◌, ◌≢◌, ◌↔◌, refl, inl, inr, ◌==◌,
  eq_iff, arith, contains, if◌then◌else◌,
}
use atlas_py.Prelude.Dict.{get, has, put, get-put}
use atlas_py.Errors.{ok, >>-eq-ok, refuse, refuse-false, require-true}
use atlas_py.Model.Knowledge.{KnowledgeRecord, Supersession, check_supersession}
use atlas_py.Model.Snapshot.{Snapshot}
use atlas_py.Store.{Store, check_open}
use atlas_py.Store.Supersede.{
  graph_of, check_records, check_membership, check_supersession_candidate, with_edge, supersede,
}
use atlas_py.Store.Supersede.Domain.{SameDomain, same_slot_iff}
use atlas_py.Store.Supersede.Admission.{edge_of}
use atlas_py.Store.Supersede.Chains.{EndsAfter, check_acyclic_iff}

-- Two distinct records of one domain, both of them in the snapshot, the old one without a
-- replacement, and chains of replacements that end with the new edge too.
pub record IsReplacement (s : Store) (old new snapshot : String) : Type 0 where
  pub previous : KnowledgeRecord
  pub replacement : KnowledgeRecord
  pub target : Snapshot
  pub is_open : s.closed ≡ false
  pub apart : old ≢ new
  pub has_previous : get s.records old ≡ some previous
  pub has_replacement : get s.records new ≡ some replacement
  pub domain : SameDomain previous replacement
  pub has_target : get s.snapshots snapshot ≡ some target
  pub holds_old : contains target.record_ids old ≡ true
  pub holds_new : contains target.record_ids new ≡ true
  pub unreplaced : get s.supersessions old ≡ none
  pub ends : (x : String) → (n : ℕ) × EndsAfter (put (graph_of s.supersessions) old new) n x

-- The store after a replacement: the edge is found under the old identity, and the other maps
-- are as before.
pub record IsReplaced (s after : Store) (edge : Supersession) (old new snapshot : String)
    : Type 0 where
  pub edge_old : edge.old ≡ old
  pub edge_new : edge.new ≡ new
  pub edge_snapshot : edge.snapshot ≡ snapshot
  pub supersessions :
      (k : String)
      → get after.supersessions k ≡ (if old == k then some edge else get s.supersessions k)
  pub closed : after.closed ≡ s.closed
  pub vocabulary : after.vocabulary ≡ s.vocabulary
  pub descriptions : after.descriptions ≡ s.descriptions
  pub sources : after.sources ≡ s.sources
  pub rules : after.rules ≡ s.rules
  pub contexts : after.contexts ≡ s.contexts
  pub snapshots : after.snapshots ≡ s.snapshots
  pub records : after.records ≡ s.records
  pub derivations : after.derivations ≡ s.derivations
  pub decision_scopes : after.decision_scopes ≡ s.decision_scopes
  pub decision_groundings : after.decision_groundings ≡ s.decision_groundings
  pub grounded_decision_problems : after.grounded_decision_problems ≡ s.grounded_decision_problems
  pub decisions : after.decisions ≡ s.decisions
  pub isolated : after.isolated ≡ s.isolated

check_candidate-ok :
    (s : Store) (old new snapshot : String)
    → IsReplacement s old new snapshot
    → check_supersession_candidate s old new snapshot ≡ ok tt
unfolding check_supersession_candidate check_records check_membership
check_candidate-ok s old new snapshot r =
    let acyclic = (check_acyclic_iff (put (graph_of s.supersessions) old new)).1 r.ends in
    let slots = (same_slot_iff r.previous r.replacement).1 r.domain in
    ground (
      arith,
      acyclic,
      slots,
      r.apart,
      eq_iff old new,
      r.has_previous,
      r.has_replacement,
      r.has_target,
      r.holds_old,
      r.holds_new,
    )

check_records-ok :
    (previous replacement : Option KnowledgeRecord)
    → check_records previous replacement ≡ ok tt
    → (a : KnowledgeRecord) × (b : KnowledgeRecord) × (previous ≡ some a)
      × (replacement ≡ some b)
      × SameDomain a b
unfolding check_records
check_records-ok (some a) (some b) h = (a, b, refl, refl, (same_slot_iff a b).0 (require-true _ h))
check_records-ok (some a) none h = cc
check_records-ok none replacement h = cc

check_membership-ok :
    (target : Option Snapshot) (old new : String)
    → check_membership target old new ≡ ok tt
    → (v : Snapshot) × (target ≡ some v)
      × (contains v.record_ids old ≡ true)
      × (contains v.record_ids new ≡ true)
unfolding check_membership
check_membership-ok none old new h = cc
check_membership-ok (some v) old new h =
    let both = require-true _ h in (v, refl, ground (arith, both), ground (arith, both))

check_candidate-IsReplacement :
    (s : Store) (old new snapshot : String)
    → s.closed ≡ false
    → has s.supersessions old ≡ false
    → check_supersession_candidate s old new snapshot ≡ ok tt
    → IsReplacement s old new snapshot
unfolding check_supersession_candidate
check_candidate-IsReplacement s old new snapshot is_open fresh h =
    let (apart, h1) = >>-eq-ok (refuse (old == new) _) h in
    let (records, h2) = >>-eq-ok (check_records (get s.records old) (get s.records new)) h1 in
    let (members, h3) = >>-eq-ok (check_membership (get s.snapshots snapshot) old new) h2 in
    let (a, b, has_a, has_b, same) =
      check_records-ok (get s.records old) (get s.records new) records in
    let (v, stored, in_old, in_new) =
      check_membership-ok (get s.snapshots snapshot) old new members in
    record {
      previous = a;
      replacement = b;
      target = v;
      is_open = is_open;
      apart = λ e. ground (arith, refuse-false _ apart, e, eq_iff old new);
      has_previous = has_a;
      has_replacement = has_b;
      domain = same;
      has_target = stored;
      holds_old = in_old;
      holds_new = in_new;
      unreplaced = elim (Option-cases (get s.supersessions old)) [
        | inl e ↦ e
        | inr (x, e) ↦ cc (rw e at fresh)
      ];
      ends = (check_acyclic_iff (put (graph_of s.supersessions) old new)).0 h3;
    }

check_open-false : (s : Store) → check_open s ≡ ok tt → s.closed ≡ false
unfolding check_open
check_open-false s h = refuse-false _ h

supersede-IsReplacement :
    (s after : Store) (edge : Supersession) (old new snapshot : String)
    → supersede s old new snapshot ≡ ok (after, edge)
    → IsReplacement s old new snapshot
unfolding supersede
supersede-IsReplacement s after edge old new snapshot h =
    let (is_open, h1) = >>-eq-ok (check_open s) h in
    let (checked, h2) = >>-eq-ok (check_supersession_candidate s old new snapshot) h1 in
    let (fresh, h3) = >>-eq-ok (refuse (has s.supersessions old) _) h2 in
    check_candidate-IsReplacement s old new snapshot (check_open-false s is_open)
      (refuse-false _ fresh) checked

supersede-ok :
    (s : Store) (old new snapshot : String)
    → IsReplacement s old new snapshot
    → supersede s old new snapshot
      ≡ ok (with_edge s (edge_of old new snapshot), edge_of old new snapshot)
unfolding supersede check_open check_supersession
supersede-ok s old new snapshot r = ground (
  arith,
  check_candidate-ok s old new snapshot r,
  r.is_open,
  r.unreplaced,
  r.apart,
  eq_iff old new,
)

with_edge-IsReplaced :
    (s : Store) (old new snapshot : String)
    → IsReplaced s
        (with_edge s (edge_of old new snapshot))
        (edge_of old new snapshot)
        old
        new
        snapshot
with_edge-IsReplaced s old new snapshot = record {
  edge_old = refl;
  edge_new = refl;
  edge_snapshot = refl;
  supersessions = λ k. get-put s.supersessions old k (edge_of old new snapshot);
  closed = refl;
  vocabulary = refl;
  descriptions = refl;
  sources = refl;
  rules = refl;
  contexts = refl;
  snapshots = refl;
  records = refl;
  derivations = refl;
  decision_scopes = refl;
  decision_groundings = refl;
  grounded_decision_problems = refl;
  decisions = refl;
  isolated = refl;
}

-- A replacement is admitted exactly if the store is open, the two records are distinct, of one
-- domain and both in the snapshot, the old one has no replacement yet, and with the new edge every
-- chain of replacements ends. What is then returned is the edge with the three identities, and the
-- store in which that edge stands under the old identity and the other maps are as before.
pub supersede_iff :
    (s : Store) (old new snapshot : String)
    → IsReplacement s old new snapshot ↔ (
        (after : Store) × (edge : Supersession) × (supersede s old new snapshot ≡ ok (after, edge))
        × IsReplaced s after edge old new snapshot)
supersede_iff s old new snapshot = (
  λ r. (
    with_edge s (edge_of old new snapshot),
    edge_of old new snapshot,
    supersede-ok s old new snapshot r,
    with_edge-IsReplaced s old new snapshot,
  ),
  λ (after, edge, returned, changed).
      supersede-IsReplacement s after edge old new snapshot returned,
)
