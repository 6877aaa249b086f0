-- ===== src/Problem/Admit.antt =====
-- store.py: `admit_m1_decision`, the admission of a selection's outcome as a decision.
pub mod Selected
use atlas_py.Prelude.{String, none}
use atlas_py.Prelude.Dict.{put, has}
use atlas_py.Errors.{Result, ok, admission_error, refuse, ◌>>◌}
use atlas_py.Problem.{M1SelectionResult, Decision, check_decision}
use atlas_py.Problem.Persisted.{validate_persisted_decision}
use atlas_py.Store.{Store, check_open}

-- Decision(ident, result.source, …)
abbrev pub decision_of : String → M1SelectionResult → Decision
decision_of ident r = record {
  id = ident;
  source = r.source;
  status = r.status;
  optimum = r.optimum;
  co_optima = r.co_optima;
}

-- self.decisions[ident.value] = decision
abbrev pub with_decision : Store → Decision → Store
with_decision s d = record s { decisions = put s.decisions d.id d }

-- Store.admit_m1_decision: the store afterwards, and the decision
unfoldable pub admit_m1_decision : Store → String → M1SelectionResult → Result (Store × Decision)
admit_m1_decision s ident r =
    let d = decision_of ident r in
    do
      check_open s
      check_decision d
      refuse (has s.decisions ident) (admission_error "duplicate decision identity")
      validate_persisted_decision s d none
      ok (with_decision s d, d)
