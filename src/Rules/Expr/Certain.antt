-- ===== src/Rules/Expr/Certain.antt =====
-- What an evaluation leaves: when it is unknown, and what it depends on.
use mathlib.Core.Path.{subst}
use atlas_py.Prelude.{
  ℕ, zero, suc, String, Bool, true, false, ◌||◌, ◌≡◌, refl, ap, ◌∙◌, ◌⊎◌, inl, inr, Option, none,
  some, List, ◌==◌, arith, contains, subset, if◌then◌else◌, Bool-cases,
}
use atlas_py.Prelude.Dict.{Dict}
use atlas_py.Errors.{Result, ok, >>=-eq-ok}
use atlas_py.Graph.Walk.{ok_injective}
use atlas_py.Json.{Json, Fields, object}
use atlas_py.Values.{Value, finite_set_symbol, finite_set}
use atlas_py.Model.Snapshot.{Snapshot}
use atlas_py.Model.Grounding.{holds, fails, is_unknown}
use atlas_py.Store.{Store}
use atlas_py.Store.View.{effective_record_ids}
use atlas_py.Rules.{State, Outcome, text_field, append_all_new}
use atlas_py.Rules.Reads.{read_of}
use atlas_py.Rules.Reads.Effective.{certain, Accounts, read_property-Accounts}
use atlas_py.Rules.Expr.{operand, apply_sets, set_operator, operate, expr}

never_unknown : (b : Bool) → is_unknown (if b then holds else fails) ≡ false
never_unknown true = refl
never_unknown false = refl

abbrev pub KeepsState : State → Outcome → Type 0
KeepsState st o = (o.state ≡ st) × (is_unknown o.truth ≡ false)

pub apply_sets-certain :
    (op : String) (st : State) (left right : Option Value) (o : Outcome)
    → apply_sets op st left right ≡ ok o
    → KeepsState st o
unfolding apply_sets
apply_sets-certain op st (some (finite_set_symbol xs)) (some (finite_set_symbol ys)) o h =
    elim (Bool-cases (op == "set_union")) [
      | inl union ↦
          let (items, e, h1) = >>=-eq-ok (finite_set (append_all_new xs ys)) _ (rw union at h) in
          subst (KeepsState st) (ok_injective h1) (refl, refl)
      | inr other ↦
          subst (KeepsState st) (ok_injective (rw other at h)) (refl, never_unknown (subset xs ys))
    ]
apply_sets-certain op st left right o h = cc

module _ (effective : List String) (left right : State → Result Outcome)
    (on_left : (st : State) (o : Outcome) → left st ≡ ok o → Accounts effective st o)
    (on_right : (st : State) (o : Outcome) → right st ≡ ok o → Accounts effective st o) where
  set_operator-Accounts :
      (op : String) (st : State) (o : Outcome)
      → set_operator op left right st ≡ ok o
      → Accounts effective st o
  unfolding set_operator
  set_operator-Accounts op st o h =
      let (l, el, h1) = >>=-eq-ok (left st) _ h in
      let (r, er, h2) = >>=-eq-ok (right l.state) _ h1 in
      let (lc, ld) = on_left st l el in
      let (rc, rd) = on_right l.state r er in
      let traced : (y : String)
          → contains r.state.dependencies y ≡ true
          → (contains st.dependencies y ≡ true) ⊎ (contains effective y ≡ true) =
        λ y m. elim (rd y m) [ inl older ↦ ld y older | inr new ↦ inr new ] in
      elim (Bool-cases (is_unknown l.truth || is_unknown r.truth)) [
        | inl missed ↦
            subst (Accounts effective st) (ok_injective (rw missed at h2))
              (ground (arith, lc, rc, missed), traced)
        | inr shut ↦
            let (same, known) = apply_sets-certain op r.state l.value r.value o (rw shut at h2) in
            (
              ap certain same ∙ ground (arith, lc, rc, shut, known),
              λ y m. traced y (subst (λ z. contains z.dependencies y ≡ true) same m),
            )
      ]

module _ (s : Store) (bindings : Dict String) (snapshot : Snapshot) (scopes effective : List String)
    (e : effective_record_ids s snapshot.id ≡ ok effective) where
  operate-Accounts :
      (left right : State → Result Outcome)
      → ((st : State) (o : Outcome) → left st ≡ ok o → Accounts effective st o)
      → ((st : State) (o : Outcome) → right st ≡ ok o → Accounts effective st o)
      → (fs : Fields) (st : State) (op : Option String) (o : Outcome)
      → operate s bindings snapshot scopes left right fs st op ≡ ok o
      → Accounts effective st o
  unfolding operate
  operate-Accounts left right on_left on_right fs st none o h = cc
  operate-Accounts left right on_left on_right fs st (some op) o h =
      elim (Bool-cases (op == "property")) [
        | inl reads ↦
            read_property-Accounts s snapshot scopes effective st (read_of bindings fs) o e
              (rw reads at h)
        | inr other ↦ elim (Bool-cases (op == "set_union" || op == "set_subset")) [
          | inl sets ↦
              set_operator-Accounts effective left right on_left on_right op st o
                (rw (other, sets) at h)
          | inr unsupported ↦ cc (rw (other, unsupported) at h)
        ]
      ]

  -- A value is unknown exactly when a read was missing or ambiguous, and rests on effective records.
  pub expr-Accounts :
      (fuel : ℕ) (json : Json) (st : State) (o : Outcome)
      → expr s bindings snapshot scopes fuel json st ≡ ok o
      → Accounts effective st o
  unfolding expr
  expr-Accounts zero json st o h = cc
  expr-Accounts (suc fuel) (object fs) st o h =
      operate-Accounts (expr s bindings snapshot scopes fuel (operand fs "left"))
        (expr s bindings snapshot scopes fuel (operand fs "right"))
        (expr-Accounts fuel (operand fs "left")) (expr-Accounts fuel (operand fs "right")) fs st
        (text_field fs "op") o h
  expr-Accounts (suc fuel) json st o h = cc
