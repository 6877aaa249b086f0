-- ===== src/Rules/Expr.antt =====
-- rules.py: `_expr`, the evaluation of a rule's condition. The recursion is on fuel: an operand lies
-- less deep in the JSON value than its operator.
pub mod Certain
pub mod Distinct
use atlas_py.Prelude.{
  ℕ, zero, suc, String, Bool, true, false, ◌||◌, Option, none, some, List, [], ◌∷◌, ◌++◌, ◌==◌,
  contains, subset, if◌then◌else◌,
}
use atlas_py.Prelude.Texts.{◌<+>◌}
use atlas_py.Prelude.Dict.{Dict}
use atlas_py.Errors.{Result, ok, err, out_of_fuel, grounding_error, ◌>>=◌}
use atlas_py.Json.{Json, Fields, null, object, lookup}
use atlas_py.Values.{Value, finite_set_symbol, finite_set}
use atlas_py.Model.Snapshot.{Snapshot}
use atlas_py.Model.Grounding.{EvaluationTruth, holds, fails, unknown, is_unknown}
use atlas_py.Store.{Store}
use atlas_py.Rules.{State, Outcome, text_field, append_all_new}
use atlas_py.Rules.Reads.{read_of, read_property}

-- expression.get(key), passed on to `_expr`
abbrev pub operand : Fields → String → Json
operand fs key = elim (lookup fs key) [ none ↦ null | some e ↦ e ]

unfoldable pub apply_sets : String → State → Option Value → Option Value → Result Outcome
apply_sets op st (some (finite_set_symbol xs)) (some (finite_set_symbol ys)) =
    if op == "set_union"
    then (do
      items ← finite_set (append_all_new xs ys)
      ok (record { truth = holds; value = some items; state = st }))
    else ok (record { truth = if subset xs ys then holds else fails; value = none; state = st })
apply_sets op st left right = err (grounding_error "set operator requires finite_set<symbol>")

unfoldable pub set_operator :
    String → (State → Result Outcome) → (State → Result Outcome) → State → Result Outcome
set_operator op left right st = do
  l ← left st
  r ← right l.state
  (if is_unknown l.truth || is_unknown r.truth
      then ok (record { truth = unknown; value = none; state = r.state })
      else apply_sets op r.state l.value r.value)

module _ (s : Store) (bindings : Dict String) (snapshot : Snapshot) (scopes : List String) where
  unfoldable pub operate :
      (State → Result Outcome)
      → (State → Result Outcome)
      → Fields
      → State
      → Option String
      → Result Outcome
  operate left right fs st none = err (grounding_error "invalid rule operator")
  operate left right fs st (some op) =
      if op == "property"
      then read_property s snapshot scopes st (read_of bindings fs)
      else (if op == "set_union" || op == "set_subset"
          then set_operator op left right st
          else err (grounding_error ("unsupported rule operator: " <+> op)))

  unfoldable pub expr : ℕ → Json → State → Result Outcome
  expr zero e st = err out_of_fuel
  expr (suc fuel) (object fs) st =
      operate (expr fuel (operand fs "left")) (expr fuel (operand fs "right")) fs st
        (text_field fs "op")
  expr (suc fuel) e st = err (grounding_error "invalid rule expression")
