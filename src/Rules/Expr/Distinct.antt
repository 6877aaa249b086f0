-- ===== src/Rules/Expr/Distinct.antt =====
-- An evaluation lists each of its dependencies once.
use atlas_py.Errors.{>>-eq-ok, >>=-eq-ok, Result, ok, require}
use atlas_py.Graph.Walk.{ok_injective}
use atlas_py.Identity.{identifier}
use atlas_py.Json.{Fields, Json, object}
use atlas_py.Model.Grounding.{is_unknown}
use atlas_py.Model.Knowledge.{PropertyAssertion}
use atlas_py.Model.Snapshot.{Snapshot}
use atlas_py.Prelude.{
  Bool-cases, List, Option, String, [], arith, contains, contains-append, distinct, eq_iff, false,
  inl, inr, none, refl, some, suc, sym, true, zero, ℕ, ◌&&◌, ◌++◌, ◌==◌, ◌||◌, ◌∷◌, ◌≡◌,
}
use atlas_py.Prelude.Dict.{Dict}
use atlas_py.Rules.{Outcome, State, append_new, text_field, use_record, use_records}
use atlas_py.Rules.Expr.{expr, operand, operate, set_operator}
use atlas_py.Rules.Expr.Certain.{apply_sets-certain}
use atlas_py.Rules.Reads.{
  Read, decide_read, find_property, fixes, is_finite_set, read_of, read_property,
}
use atlas_py.Store.{Store}
use atlas_py.Store.View.{effective_record_ids}
use atlas_py.Values.{nonempty}
use atlas_py.Vocabulary.{PropertySpec}
use mathlib.Core.Path.{subst}

distinct-append_new :
    (xs : List String) (x : String) → distinct xs ≡ true → distinct (append_new xs x) ≡ true
unfolding append_new distinct contains
distinct-append_new xs x h = elim (Bool-cases (contains xs x)) [
  | inl old ↦ rw old h
  | inr new ↦ rw new (distinct-append_one xs x h new)
]
  where
    distinct-append_one :
        (ys : List String) (y : String)
        → distinct ys ≡ true
        → contains ys y ≡ false
        → distinct (ys ++ y ∷ []) ≡ true
    distinct-append_one [] y d n = refl
    distinct-append_one (z ∷ ys) y d n =
        ground
          (arith, distinct-append_one ys y, contains-append ys (y ∷ []) z, eq_iff z y, eq_iff y z)

abbrev Distinct : State → Type 0
Distinct st = distinct st.dependencies ≡ true

use_records-Distinct :
    (found : List PropertyAssertion) (st : State) → Distinct st → Distinct (use_records st found)
unfolding use_records use_record
use_records-Distinct [] st h = h
use_records-Distinct (a ∷ rest) st h =
    use_records-Distinct rest (use_record st a) (distinct-append_new st.dependencies a.id h)

decide_read-Distinct :
    (spec : PropertySpec) (r : Read) (st : State) (found : List PropertyAssertion) (o : Outcome)
    → decide_read spec r st found ≡ ok o
    → Distinct st
    → Distinct o.state
unfolding decide_read use_record use_records
decide_read-Distinct spec r st [] o h d = subst (λ z. Distinct z.state) (ok_injective h) d
decide_read-Distinct spec r st (a ∷ []) o h d =
    let (kind, h1) =
      >>-eq-ok (require (spec.value_kind == "finite_set<symbol>" && is_finite_set a.value) _) h in
    let (exact, h2) = >>-eq-ok (require (a.epistemic_status == "exact") _) h1 in
    subst (λ z. Distinct z.state) (ok_injective h2) (use_records-Distinct (a ∷ []) st d)
decide_read-Distinct spec r st (a ∷ b ∷ rest) o h d =
    subst (λ z. Distinct z.state) (ok_injective h) (use_records-Distinct (a ∷ b ∷ rest) _ d)

read_property-Distinct :
    (s : Store) (snapshot : Snapshot) (scopes : List String) (st : State) (r : Option Read)
    (o : Outcome)
    → read_property s snapshot scopes st r ≡ ok o
    → Distinct st
    → Distinct o.state
unfolding read_property
read_property-Distinct s snapshot scopes st none o h d = cc
read_property-Distinct s snapshot scopes st (some r) o h d =
    let (named, h1) = >>-eq-ok (identifier r.property) h in
    let (fixed, h2) =
      >>-eq-ok
        (require (nonempty r.version && fixes snapshot.property_versions r.property r.version) _)
        h1 in
    let (spec, found, h3) = >>=-eq-ok (find_property s r.property r.version) _ h2 in
    let (ids, e, h4) = >>=-eq-ok (effective_record_ids s snapshot.id) _ h3 in
    decide_read-Distinct spec r st _ o h4 d

-- An evaluation that keeps the dependencies distinct.
abbrev Keeps : (State → Result Outcome) → Type 0
Keeps f = (st : State) (o : Outcome) → f st ≡ ok o → Distinct st → Distinct o.state

set_operator-Keeps :
    (op : String) (left right : State → Result Outcome)
    → Keeps left
    → Keeps right
    → Keeps (set_operator op left right)
unfolding set_operator
set_operator-Keeps op left right on_left on_right st o h d =
    let (l, el, h1) = >>=-eq-ok (left st) _ h in
    let (r, er, h2) = >>=-eq-ok (right l.state) _ h1 in
    let kept = on_right l.state r er (on_left st l el d) in
    elim (Bool-cases (is_unknown l.truth || is_unknown r.truth)) [
      | inl missed ↦ subst (λ z. Distinct z.state) (ok_injective (rw missed at h2)) kept
      | inr known ↦
          subst Distinct (sym (apply_sets-certain op r.state l.value r.value o (rw known at h2)).0)
            kept
    ]

module _ (s : Store) (bindings : Dict String) (snapshot : Snapshot) (scopes : List String) where
  operate-Keeps :
      (left right : State → Result Outcome)
      → Keeps left
      → Keeps right
      → (fs : Fields) (op : Option String)
      → Keeps (λ st. operate s bindings snapshot scopes left right fs st op)
  unfolding operate
  operate-Keeps left right on_left on_right fs none st o h d = cc
  operate-Keeps left right on_left on_right fs (some op) st o h d =
      elim (Bool-cases (op == "property")) [
        | inl reads ↦
            read_property-Distinct s snapshot scopes st (read_of bindings fs) o (rw reads at h) d
        | inr other ↦ elim (Bool-cases (op == "set_union" || op == "set_subset")) [
          | inl sets ↦
              set_operator-Keeps op left right on_left on_right st o (rw (other, sets) at h) d
          | inr unsupported ↦ cc (rw (other, unsupported) at h)
        ]
      ]

  pub expr-Distinct :
      (fuel : ℕ) (json : Json) (st : State) (o : Outcome)
      → expr s bindings snapshot scopes fuel json st ≡ ok o
      → distinct st.dependencies ≡ true
      → distinct o.state.dependencies ≡ true
  unfolding expr
  expr-Distinct zero json st o h d = cc
  expr-Distinct (suc fuel) (object fs) st o h d =
      operate-Keeps (expr s bindings snapshot scopes fuel (operand fs "left"))
        (expr s bindings snapshot scopes fuel (operand fs "right"))
        (expr-Distinct fuel (operand fs "left")) (expr-Distinct fuel (operand fs "right")) fs
        (text_field fs "op") st o h d
  expr-Distinct (suc fuel) json st o h d = cc
