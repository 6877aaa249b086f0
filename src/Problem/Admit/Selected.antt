-- ===== src/Problem/Admit/Selected.antt =====
-- store.py: `admit_m1_decision` on what `select_m1` returns.
use atlas_py.Errors.{>>-eq-ok, >>-of_ok, >>=-eq-ok, expect, ok, refuse-of_false}
use atlas_py.Graph.Walk.{ok_injective}
use atlas_py.Prelude.{
  Bool, Bool-cases, List, Option, String, [], ap, arith, false, inl, inr, none, refl, some, sym,
  true, ◌∙◌, ◌∷◌, ◌≡◌, subset_refl,
}
use atlas_py.Prelude.Dict.{get, has}
use atlas_py.Prelude.Int.{ℤ}
use atlas_py.Problem.{
  GroundedDecisionProblem, M1SelectionResult, SelectionStatus, check_decision, check_problem,
  check_selection,
}
use atlas_py.Problem.Access.{decision_problem, select_stored}
use atlas_py.Problem.Admit.{admit_m1_decision, decision_of, with_decision}
use atlas_py.Problem.Agreement.{validate_outcome_iff_select_m1}
use atlas_py.Problem.Costs.{costs}
use atlas_py.Problem.Persisted.{scope_semantics, validate_against, validate_persisted_decision}
use atlas_py.Problem.Select.{
  check_candidates, choose, has_unknown, new_selection, prices, scoped_candidates, select_m1,
  select_result, true_candidates,
}
use atlas_py.Problem.Validate.{same_set}
use atlas_py.Store.{Store, check_open}
use mathlib.Core.Path.{subst}

-- A selection that passes its constructor's checks and names its problem.
abbrev IsSelection : String → M1SelectionResult → Type 0
IsSelection id r = (r.source ≡ id) × (check_selection r ≡ ok tt)

new_selection-IsSelection :
    (id : String) (status : SelectionStatus) (optimum : Option ℤ) (co_optima : List String)
    (r : M1SelectionResult)
    → new_selection id status optimum co_optima ≡ ok r
    → IsSelection id r
unfolding new_selection
new_selection-IsSelection id status optimum co_optima r h =
    let (checked, h1) = >>-eq-ok (check_selection (select_result id status optimum co_optima)) h in
    subst (IsSelection id) (ok_injective h1) (refl, checked)

choose-IsSelection :
    (id : String) (ps : List (String × ℤ)) (r : M1SelectionResult)
    → choose id ps ≡ ok r
    → IsSelection id r
unfolding choose
choose-IsSelection id [] r h = new_selection-IsSelection id _ _ _ r h
choose-IsSelection id (p ∷ ps) r h = new_selection-IsSelection id _ _ _ r h

select_m1-IsSelection :
    (id : String) (p : GroundedDecisionProblem) (modern : Bool) (r : M1SelectionResult)
    → select_m1 id p modern ≡ ok r
    → (check_candidates p.objective (scoped_candidates modern p) ≡ ok tt) × IsSelection id r
unfolding select_m1
select_m1-IsSelection id p modern r h =
    let cs = scoped_candidates modern p in
    let (checked, h1) = >>-eq-ok (check_candidates p.objective cs) h in
    (
      checked,
      elim (Bool-cases (has_unknown cs)) [
        | inl open' ↦ new_selection-IsSelection id _ _ _ r (rw open' at h1)
        | inr known ↦
            let (costs, e, h2) = >>=-eq-ok (prices (true_candidates cs)) _ (rw known at h1) in
            choose-IsSelection id costs r h2
      ],
    )

same_set_refl : (xs : List String) → same_set xs xs ≡ true
unfolding same_set
same_set_refl xs = ground (arith, subset_refl xs)

module _ (s : Store) (source ident : String) (p : GroundedDecisionProblem) (r : M1SelectionResult)
    (stored : decision_problem s source ≡ ok p) (formed : check_problem p ≡ ok tt)
    (selected : select_stored s source ≡ ok r) where
  selected_by :
      select_m1 source p (scope_semantics none (get s.decision_groundings p.scope_id)) ≡ ok r
  unfolding select_stored
  selected_by =
      let (q, e, h) = >>=-eq-ok (decision_problem s source) _ selected in
      subst
        (λ z.
          select_m1 source z (scope_semantics none (get s.decision_groundings z.scope_id)) ≡ ok r)
        (ok_injective (sym e ∙ stored)) h

  stored_get : (check_open s ≡ ok tt) × (get s.grounded_decision_problems source ≡ some p)
  unfolding decision_problem expect
  stored_get = let (is_open, h) = >>-eq-ok (check_open s) stored in (is_open, ground (arith, h))

  validated : validate_persisted_decision s (decision_of ident r) none ≡ ok tt
  unfolding validate_persisted_decision validate_against
  validated =
      let modern = scope_semantics none (get s.decision_groundings p.scope_id) in
      let (checked, (named, sound)) = select_m1-IsSelection source p modern r selected_by in
      let (is_open, there) = stored_get in
      ap (validate_against s none (decision_of ident r))
        (ap (get s.grounded_decision_problems) named ∙ there)
      ∙ (validate_outcome_iff_select_m1 source p modern (decision_of ident r) r formed checked
            selected_by).1
          (record { status = refl; optimum = refl; co_optima = same_set_refl r.co_optima })

  -- What the selection on a stored problem returns is admitted as a decision under every identity
  -- that is free: the validation does not refuse it, and the decision has the outcome's fields.
  pub admit_m1_decision_selected :
      has s.decisions ident ≡ false
      → admit_m1_decision s ident r
        ≡ ok (with_decision s (decision_of ident r), decision_of ident r)
  unfolding admit_m1_decision check_decision
  admit_m1_decision_selected fresh =
      let (checked, (named, sound)) = select_m1-IsSelection source p _ r selected_by in
      let (is_open, there) = stored_get in
      >>-of_ok is_open
        (>>-of_ok sound (>>-of_ok (refuse-of_false _ fresh) (>>-of_ok validated refl)))
