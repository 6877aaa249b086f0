-- ===== src/Store.antt =====
-- src/atlas/store.py: the maps that a store publishes, and the readers over them. The SQLite rows
-- are written before the maps and hold the same objects: what is modelled is the published state.
pub mod View
pub mod Lineage
pub mod Ancestry
pub mod Visible
pub mod Prune
pub mod Effective
pub mod Supersede
pub mod Dependencies
pub mod History
pub mod Unique
use atlas_py.Prelude.{
  String, Bool, true, false, Option, none, some, List, [], ◌∷◌, map, contains, keep,
}
use atlas_py.Prelude.Dict.{Dict, get, values}
use atlas_py.Errors.{Check, Result, ok, err, key_error, closed_store_error, refuse, ◌>>=◌, ◌>>◌}
use atlas_py.Vocabulary.{Vocabulary}
use atlas_py.Model.Knowledge.{
  Description, Source, KnowledgeRecord, Rule, Context, Supersession, Derivation, property, relation,
}
use atlas_py.Model.Snapshot.{Snapshot}
use atlas_py.Model.Scope.{DecisionScope, DecisionGrounding}
use atlas_py.Problem.{GroundedDecisionProblem, Decision}

pub record Store : Type 0 where
  pub closed : Bool
  pub vocabulary : Vocabulary
  pub descriptions : Dict Description
  pub sources : Dict Source
  pub rules : Dict Rule
  pub contexts : Dict Context
  pub snapshots : Dict Snapshot
  pub records : Dict KnowledgeRecord
  pub derivations : Dict Derivation
  pub supersessions : Dict Supersession
  pub decision_scopes : Dict DecisionScope
  pub decision_groundings : Dict DecisionGrounding
  pub grounded_decision_problems : Dict GroundedDecisionProblem
  pub decisions : Dict Decision
  -- the keys of `isolated`: (kind, row identity)
  pub isolated : List (String × String)

-- Store._check
unfoldable pub check_open : Store → Check
check_open s = refuse s.closed (closed_store_error "store is closed")

-- d[key]
unfoldable pub subscript {ℓ} : {V : Type ℓ} → Dict V → String → Result V
subscript d k = elim (get d k) [ none ↦ err (key_error k) | some v ↦ ok v ]

-- Store.open_snapshot
unfoldable pub open_snapshot : Store → String → Result Snapshot
open_snapshot s ident = do check_open s; subscript s.snapshots ident
