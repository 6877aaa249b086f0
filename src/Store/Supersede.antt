-- ===== src/Store/Supersede.antt =====
-- store.py: `supersede`, the admission of one replacement edge, with `_supersession_slot` and
-- `_validate_supersession_candidate`.
pub mod Chains
pub mod Admission
pub mod Domain
pub mod Replacement
use atlas_py.Prelude.{
  ℕ, zero, suc, String, Bool, true, false, not, ◌&&◌, ◌||◌, Option, none, some, List, [], ◌∷◌, map,
  ◌==◌, contains, length, if◌then◌else◌,
}
use atlas_py.Prelude.Dict.{Dict, get, put, keys, has}
use atlas_py.Errors.{
  Check, Result, ok, err, out_of_fuel, validation_error, admission_error, require, refuse, ◌>>=◌,
  ◌>>◌,
}
use atlas_py.Values.{Value, symbol, integer, finite_set_symbol, sequence_symbol, same_texts}
use atlas_py.Model.Knowledge.{KnowledgeRecord, property, relation, Supersession, check_supersession}
use atlas_py.Model.Snapshot.{Snapshot}
use atlas_py.Store.{Store, check_open}

-- type(left) is type(right)
unfoldable pub same_kind : Value → Value → Bool
same_kind (symbol a) (symbol b) = true
same_kind (integer a) (integer b) = true
same_kind (finite_set_symbol a) (finite_set_symbol b) = true
same_kind (sequence_symbol a) (sequence_symbol b) = true
same_kind _ _ = false

-- The equality of the two tuples that `_supersession_slot` returns. Every record has a slot, since a
-- record is a property or a relation.
unfoldable pub same_slot : KnowledgeRecord → KnowledgeRecord → Bool
same_slot (property a) (property b) =
    a.description == b.description
    && a.property == b.property
    && a.version == b.version
    && same_kind a.value b.value
same_slot (relation a) (relation b) =
    a.predicate == b.predicate
    && a.version == b.version
    && same_texts a.participants b.participants
    && a.polarity == b.polarity
same_slot _ _ = false

-- {key: edge.new.value for key, edge in edges.items()}
unfoldable pub graph_of : Dict Supersession → Dict String
graph_of [] = []
graph_of ((old, edge) ∷ edges) = (old, edge.new) ∷ graph_of edges

-- The `while current in graph` loop.
unfoldable pub follow : Dict String → ℕ → List String → String → Check
follow graph zero seen current = err out_of_fuel
follow graph (suc fuel) seen current = elim (get graph current) [
  | none ↦ ok tt
  | some next ↦
      let rest = follow graph fuel (current ∷ seen) next in
      if contains seen current then err (validation_error "supersession cycle") else rest
]

-- The `for start in graph` loop.
unfoldable pub follow_each : Dict String → List String → Check
follow_each graph [] = ok tt
follow_each graph (start ∷ starts) = do
  follow graph (suc (length graph)) [] start
  follow_each graph starts

unfoldable pub check_acyclic : Dict String → Check
check_acyclic graph = follow_each graph (keys graph)

unfoldable pub check_records : Option KnowledgeRecord → Option KnowledgeRecord → Check
check_records (some previous) (some replacement) =
    require (same_slot previous replacement)
      (validation_error "supersession changes the semantic domain")
check_records _ _ = err (validation_error "supersession requires existing old and new knowledge")

unfoldable pub check_membership : Option Snapshot → String → String → Check
check_membership none old new = err (validation_error "unknown reference snapshot")
check_membership (some target) old new =
    require (contains target.record_ids old && contains target.record_ids new)
      (validation_error "old and new knowledge must be present in the reference snapshot")

-- Store._validate_supersession_candidate, with the edges of the store
unfoldable pub check_supersession_candidate : Store → String → String → String → Check
check_supersession_candidate s old new snapshot = do
  refuse (old == new) (validation_error "knowledge cannot supersede itself")
  check_records (get s.records old) (get s.records new)
  check_membership (get s.snapshots snapshot) old new
  check_acyclic (put (graph_of s.supersessions) old new)

-- self.supersessions[old.value] = edge
abbrev pub with_edge : Store → Supersession → Store
with_edge s edge = record s { supersessions = put s.supersessions edge.old edge }

-- Store.supersede: the store afterwards, and the edge
unfoldable pub supersede : Store → String → String → String → Result (Store × Supersession)
supersede s old new snapshot =
    let edge : Supersession = record { old = old; new = new; snapshot = snapshot } in
    do
      check_open s
      check_supersession_candidate s old new snapshot
      refuse (has s.supersessions old) (admission_error "knowledge already has a supersession")
      check_supersession edge
      ok (with_edge s edge, edge)
