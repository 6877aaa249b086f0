-- ===== src/Rules.antt =====
-- src/atlas/rules.py: the evaluation of one rule at one binding. The JSON text of a historical rule is
-- the JSON value; the identifiers are of their own domains already.
pub mod Reads
pub mod Expr
pub mod Ground
use atlas_py.Prelude.{
  String, Bool, true, false, Option, none, some, List, [], ◌∷◌, ◌++◌, ◌==◌, contains, if◌then◌else◌,
}
use atlas_py.Json.{Json, Fields, text, lookup}
use atlas_py.Values.{Value}
use atlas_py.Model.Knowledge.{PropertyAssertion}
use atlas_py.Model.Grounding.{EvaluationTruth, MissingRead, AmbiguousRead}

-- _State
pub record State : Type 0 where
  pub dependencies : List String
  pub missing : List MissingRead
  pub ambiguous : List AmbiguousRead
  pub provenance : List String
  pub epistemic : List String

abbrev pub new_state : State
new_state = record {
  dependencies = [];
  missing = [];
  ambiguous = [];
  provenance = [];
  epistemic = [];
}

-- if x not in xs: xs.append(x)
unfoldable pub append_new : List String → String → List String
append_new xs x = if contains xs x then xs else xs ++ x ∷ []

unfoldable pub append_all_new : List String → List String → List String
append_all_new xs [] = xs
append_all_new xs (y ∷ ys) = append_all_new (append_new xs y) ys

-- state.dependency(record.id), state.source(source) for its provenance, and its epistemic status
unfoldable pub use_record : State → PropertyAssertion → State
use_record st a = record st {
  dependencies = append_new st.dependencies a.id;
  provenance = append_all_new st.provenance a.provenance;
  epistemic = st.epistemic ++ a.epistemic_status ∷ [];
}

unfoldable pub use_records : State → List PropertyAssertion → State
use_records st [] = st
use_records st (a ∷ rest) = use_records (use_record st a) rest

-- What `_expr` returns, with the state that it leaves.
pub record Outcome : Type 0 where
  pub truth : EvaluationTruth
  pub value : Option Value
  pub state : State

-- expression.get(key), where a text is asked for
unfoldable pub text_field : Fields → String → Option String
text_field fs key = elim (lookup fs key) [ some (text s) ↦ some s | _ ↦ none ]
