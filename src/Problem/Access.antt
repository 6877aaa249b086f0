-- ===== src/Problem/Access.antt =====
-- store.py: the readers of one stored object, and the selection on a stored problem.
use atlas_py.Prelude.{
  String, Bool, true, ◌&&◌, Option, none, some, List, ◌==◌, map, keep, contains, if◌then◌else◌,
}
use atlas_py.Prelude.Dict.{get, values}
use atlas_py.Errors.{Result, ok, expect, ◌>>=◌, ◌>>◌}
use atlas_py.Model.Knowledge.{KnowledgeRecord, property, relation, record_id}
use atlas_py.Model.Scope.{DecisionScope, DecisionGrounding, GroundingObservation}
use atlas_py.Problem.{GroundedDecisionProblem, M1SelectionResult, Decision}
use atlas_py.Problem.Select.{select_m1}
use atlas_py.Problem.Persisted.{scope_semantics}
use atlas_py.Store.{Store, check_open, open_snapshot}
use atlas_py.Store.View.{effective_record_ids}

-- Store.decision_scope
unfoldable pub decision_scope : Store → String → Result DecisionScope
decision_scope s ident = do
  check_open s
  expect "unknown decision scope" (get s.decision_scopes ident)

-- Store.decision_grounding
unfoldable pub decision_grounding : Store → String → Result DecisionGrounding
decision_grounding s ident = do
  check_open s
  expect "unknown decision scope grounding" (get s.decision_groundings ident)

-- Store.decision_problem
unfoldable pub decision_problem : Store → String → Result GroundedDecisionProblem
decision_problem s ident = do
  check_open s
  expect "unknown grounded decision problem" (get s.grounded_decision_problems ident)

-- Store.select_m1
unfoldable pub select_stored : Store → String → Result M1SelectionResult
select_stored s ident = do
  p ← decision_problem s ident
  select_m1 ident p (scope_semantics none (get s.decision_groundings p.scope_id))

-- Store.decision
unfoldable pub decision : Store → String → Result Decision
decision s ident = do check_open s; expect "unknown decision" (get s.decisions ident)

-- Store.decision_observations
unfoldable pub decision_observations : Store → String → Result (List GroundingObservation)
decision_observations s ident = do grounding ← decision_grounding s ident; ok grounding.observations

-- Store.encountered_candidates
unfoldable pub encountered_candidates : Store → String → Result (List String)
encountered_candidates s ident = do
  observations ← decision_observations s ident
  ok (map (λ o. o.candidate) (keep (λ o. o.traversed) observations))

-- record.id in self.open_snapshot(snapshot).record_ids
unfoldable pub shown_in : Store → String → KnowledgeRecord → Result (Option KnowledgeRecord)
shown_in s snapshot_id found = do
  snapshot ← open_snapshot s snapshot_id
  ok (if contains snapshot.record_ids (record_id found) then some found else none)

unfoldable pub read_from :
    Store → Option String → Option KnowledgeRecord → Result (Option KnowledgeRecord)
read_from s snapshot none = ok none
read_from s none (some found) = ok (some found)
read_from s (some snapshot_id) (some found) = shown_in s snapshot_id found

-- Store.read
unfoldable pub read : Store → String → Option String → Result (Option KnowledgeRecord)
read s ident snapshot = do check_open s; read_from s snapshot (get s.records ident)

-- The record is of the kind asked for.
unfoldable pub is_kind : Option String → KnowledgeRecord → Bool
is_kind none r = true
is_kind (some kind) (property a) = kind == "property"
is_kind (some kind) (relation a) = kind == "relation"

-- `allowed`: the effective ids of the snapshot, and no bound without one
unfoldable pub allowed_ids : Store → Option String → Result (Option (List String))
allowed_ids s none = ok none
allowed_ids s (some snapshot_id) = do ids ← effective_record_ids s snapshot_id; ok (some ids)

abbrev pub is_allowed : Option (List String) → String → Bool
is_allowed none ident = true
is_allowed (some ids) ident = contains ids ident

-- Store.find
unfoldable pub find_records : Store → Option String → Option String → Result (List KnowledgeRecord)
find_records s kind snapshot = do
  check_open s
  allowed ← allowed_ids s snapshot
  ok (keep (λ r. is_allowed allowed (record_id r) && is_kind kind r) (values s.records))
