-- ===== src/Lib.antt =====
-- The core of Atlas: a store of exact knowledge with immutable snapshots, rules that are grounded on
-- it, and decisions that are selected, persisted and validated. The program's package is `src/atlas`.
--
-- The parts and their files:
-- - Prelude: what the others share. Python's `dict` is an association list in insertion order
--   (Dict), texts are ordered by code points (Order), integers are signed (Int); Counting holds the
--   measure of the searches, Members the lemmas on membership. Errors has the exceptions of `errors.py` and the results of code that
--   may raise, Json the values of `json.loads`.
-- - Identity, Values, Provenance, Vocabulary: the modules of those names. Vocabulary has
--   `Store.configure_vocabulary` and `_latest_versions` too.
-- - Model: `model.py`, one record per class and one `check_…` function per constructor.
-- - Problem: `problem.py`. Select has `_select_m1`, Validate and Persisted have
--   `validate_persisted_decision`, Explain has the explanations and `_explain_m1`,
--   Support the costs that support an objective, Build has `build_grounded_decision_problem` and
--   `Store.admit_grounded_decision_problem`, Stored has
--   `validate_persisted_grounded_decision_problem`, `Store.explain_m1` and `Store.status_of`,
--   Equality the `==` of problems; Admit and Access have `Store.admit_m1_decision` and
--   the readers of one stored object; the other children are proofs.
-- - Graph: the depth-first walk that `store.py` and `problem.py` write out several times.
-- - Store: the maps that `store.py` publishes. View has `_snapshot_descends_from`,
--   `_visible_supersessions` and `_effective_record_ids`, History has `snapshot`, Supersede has `supersede`, Dependencies has
--   `dependencies` and `_decision_dependency_closure`, Unique has `_unique_values`.
-- - Evidence, Rules: `evidence.py` and `rules.py`. Reads has the operator that reads a property,
--   Expr the evaluation of an expression, Ground the evaluation of a rule.
-- - Scope: `scope.py`. Scope has the conditions on a scope and `Store.create_decision_scope`,
--   Discovery `discover_relation` and `validate_discovery_evidence`, Validate
--   `validate_grounding_result` and `compute_declared_scope_completeness`, Evaluate `evaluate` and
--   `Store.evaluate_decision_scope`. Problem builds on the groundings that it publishes.
-- - Witnesses: concrete inputs and runs.
--
-- Identifiers and texts are native strings; the domain of an identifier is the field that holds it,
-- so the tests of the source on nominal types hold by typing. Truth values TRUE, FALSE and UNKNOWN
-- are `holds`, `fails` and `unknown`. An exception ends a computation with `err`; code that mutates
-- the store returns the store afterwards.
--
-- Fuel: `visit` takes one unit per node with successors on its path, and the walks of the store are
-- given one more than there are derivations; `ascend` takes one unit per snapshot, and is given two
-- more than there are; `prune` one per removed id; `follow` one per key of the graph; `expr` one per
-- level of the JSON value. Where fuel runs out the error is `out_of_fuel`, which is not the
-- program's, and the theorems that a computation returns show that it does not come up.
--
-- Parameters: the digest of `evidence.py` (SHA-256 of the JSON text) is an argument.
--
-- Not modelled: SQLite, the payloads and the restore of persisted rows (also those of `scope.py`),
-- `Store.admit` and `Store.admit_derived`, `_missing_read_is_outside_context`, which nothing calls,
-- the semantic queries, and what lies outside `src/atlas` (the agent tools, the experiments, the
-- conformance suite and the corpus).
pub mod Prelude
pub mod Errors
pub mod Json
pub mod Values
pub mod Model
pub mod Problem
pub mod Graph
pub mod Vocabulary
pub mod Provenance
pub mod Store
pub mod Rules
pub mod Scope
pub mod Witnesses
pub mod Evidence
pub mod Identity
