-- ===== src/Scope/Evaluate/Complete.antt =====
-- scope.py and store.py: what a grounding that `evaluate` returns covers, and that a scope is
-- evaluated once.
use atlas_py.Scope.Evaluate.Run.{EachObserved, EachObserved-candidates, observe_each-EachObserved}
use atlas_py.Errors.{
  >>-eq-ok, >>-of_ok, >>=-eq-ok, >>=-of_ok, admission_error, err, ok, refuse, refuse-false, require,
  require-true, refuse-raises,
}
use atlas_py.Graph.Walk.{ok_injective}
use atlas_py.Json.{Json}
use atlas_py.Model.Grounding.{
  GroundingStatus, complete_for_declared_scope, incomplete, invalid, is_complete,
}
use atlas_py.Model.Scope.{DecisionGrounding, DecisionScope, GroundingObservation, check_grounding}
use atlas_py.Prelude.{
  Bool-cases, List, String, any, ap, arith, false, inl, inr, is_some, not, refl, some, sym, true,
  ◌∙◌, ◌≡◌, ◌==◌,
}
use atlas_py.Prelude.Dict.{get, has, get-put_other, get-put_self}
use atlas_py.Problem.Access.{decision_scope}
use atlas_py.Scope.{validate_scope_environment}
use atlas_py.Scope.Evaluate.{
  conclude_run, evaluate, evaluate_decision_scope, observe_each, run_of, run_status, status_is,
  the_prescribed_rule, with_grounding,
}
use atlas_py.Scope.Validate.{compute_completeness, observed_ids}
use atlas_py.Store.{Store, check_open}
use mathlib.Core.Path.{subst}

status_is-eq : (a b : GroundingStatus) → status_is a b ≡ true → a ≡ b
unfolding status_is
status_is-eq complete_for_declared_scope complete_for_declared_scope h = refl
status_is-eq complete_for_declared_scope b h = ground arith
status_is-eq incomplete incomplete h = refl
status_is-eq incomplete b h = ground arith
status_is-eq invalid invalid h = refl
status_is-eq invalid b h = ground arith

run_status_complete :
    (os : List GroundingObservation)
    → is_complete (run_status os) ≡ not (any (λ o. is_some o.structural_error) os)
unfolding run_status
run_status_complete os = elim (Bool-cases (any (λ o. is_some o.structural_error) os)) [
  | inl broken ↦ rw broken refl
  | inr sound ↦ rw sound refl
]

module _ (digest : Json → String) (s : Store) (scope : DecisionScope) where
  -- A grounding that covers the manifest with the scope's one prescribed rule.
  pub record Covers (g : DecisionGrounding) : Type 0 where
    pub rule : String
    pub unique : the_prescribed_rule scope.manifest.prescribed_rule_ids ≡ ok rule
    pub each :
        EachObserved digest s scope rule scope.manifest.candidate_description_ids g.observations
    pub in_order : observed_ids g.observations ≡ scope.manifest.candidate_description_ids
    pub walked : any (λ o. not o.traversed) g.observations ≡ false
    pub earned : is_complete g.status ≡ not (any (λ o. is_some o.structural_error) g.observations)
    pub recomputed : compute_completeness digest s scope g ≡ ok g.status

  conclude_run-eq :
      (g g' : DecisionGrounding)
      → conclude_run digest s scope g ≡ ok g'
      → (g ≡ g') × (compute_completeness digest s scope g ≡ ok g.status)
  unfolding conclude_run
  conclude_run-eq g g' h =
      let (checked, h1) = >>-eq-ok (check_grounding g) h in
      let (computed, e, h2) = >>=-eq-ok (compute_completeness digest s scope g) _ h1 in
      let (same, h3) = >>-eq-ok (require (status_is computed g.status) _) h2 in
      (ok_injective h3, e ∙ ap ok (status_is-eq computed g.status (require-true _ same)))

  run-Covers :
      (rule : String) (os : List GroundingObservation)
      → the_prescribed_rule scope.manifest.prescribed_rule_ids ≡ ok rule
      → observe_each digest s scope rule scope.manifest.candidate_description_ids ≡ ok os
      → compute_completeness digest s scope (run_of scope os) ≡ ok (run_status os)
      → Covers (run_of scope os)
  run-Covers rule os unique observed computed =
      let each =
        observe_each-EachObserved digest s scope rule scope.manifest.candidate_description_ids os
          observed in
      let (same, walked) = EachObserved-candidates digest s scope rule each in
      record {
        rule = rule;
        unique = unique;
        each = each;
        in_order = same;
        walked = walked;
        earned = run_status_complete os;
        recomputed = computed;
      }

  -- A grounding that the evaluation returns observes every candidate of the manifest, in order and
  -- traversed, each by the certificate and the result of the one prescribed rule or by the message
  -- of a grounding error; it is complete exactly when no candidate has such an error, and the
  -- status that is computed from it is its own.
  pub evaluate-Covers : (g : DecisionGrounding) → evaluate digest s scope ≡ ok g → Covers g
  unfolding evaluate
  evaluate-Covers g h =
      let (environment, h1) = >>-eq-ok (validate_scope_environment s scope) h in
      let (rule, unique, h2) =
        >>=-eq-ok (the_prescribed_rule scope.manifest.prescribed_rule_ids) _ h1 in
      let (os, observed, h3) =
        >>=-eq-ok (observe_each digest s scope rule scope.manifest.candidate_description_ids) _
          h2 in
      let (same, computed) = conclude_run-eq (run_of scope os) g h3 in
      subst Covers same (run-Covers rule os unique observed computed)

module _ (digest : Json → String) (s : Store) (ident : String) (s' : Store) (g : DecisionGrounding)
    (published : evaluate_decision_scope digest s ident ≡ ok (s', g)) where
  -- The steps of an evaluation that is published.
  pub record Published : Type 0 where
    pub scope : DecisionScope
    pub is_open : check_open s ≡ ok tt
    pub found : decision_scope s ident ≡ ok scope
    pub evaluated : evaluate digest s scope ≡ ok g
    pub fresh : has s.decision_groundings scope.id ≡ false
    pub after : s' ≡ with_grounding s scope.id g

  pub evaluate_decision_scope-Published : Published
  unfolding evaluate_decision_scope
  evaluate_decision_scope-Published =
      let (is_open, h1) = >>-eq-ok (check_open s) published in
      let (scope, found, h2) = >>=-eq-ok (decision_scope s ident) _ h1 in
      let (fresh, h3) = >>-eq-ok (refuse (has s.decision_groundings scope.id) _) h2 in
      let (made, e, h4) = >>=-eq-ok (evaluate digest s scope) _ h3 in
      record {
        scope = scope;
        is_open = is_open;
        found = found;
        evaluated = e ∙ ap (λ p. ok p.1) (ok_injective h4);
        fresh = refuse-false _ fresh;
        after =
            ap (λ p. p.0) (sym (ok_injective h4))
            ∙ ap (with_grounding s scope.id) (ap (λ p. p.1) (ok_injective h4));
      }

  again :
      (scope : DecisionScope)
      → check_open s ≡ ok tt
      → decision_scope s ident ≡ ok scope
      → evaluate_decision_scope digest (with_grounding s scope.id g) ident
        ≡ err (admission_error "decision scope grounding already exists")
  unfolding evaluate_decision_scope decision_scope check_open
  again scope is_open found = >>-of_ok is_open (
      >>=-of_ok _ found
        (refuse-raises _ _ (ap is_some (get-put_self s.decision_groundings scope.id g))))

  -- An evaluation that is published is the evaluation of the stored scope; it is read back at that
  -- scope, the groundings of the other scopes stay, and a second evaluation is refused.
  pub evaluate_decision_scope_once :
      (scope : DecisionScope)
      → decision_scope s ident ≡ ok scope
      → (evaluate digest s scope ≡ ok g)
        × (get s'.decision_groundings scope.id ≡ some g)
        × ((other : String)
            → (scope.id == other) ≡ false
            → get s'.decision_groundings other ≡ get s.decision_groundings other)
        × (evaluate_decision_scope digest s' ident
            ≡ err (admission_error "decision scope grounding already exists"))
  evaluate_decision_scope_once scope found =
      let w = evaluate_decision_scope-Published in
      let same : w.scope ≡ scope = ok_injective (sym w.found ∙ found) in
      let after : s' ≡ with_grounding s scope.id g =
        w.after ∙ ap (λ z. with_grounding s z.id g) same in
      (
        subst (λ z. evaluate digest s z ≡ ok g) same w.evaluated,
        ap (λ z. get z.decision_groundings scope.id) after
            ∙ get-put_self s.decision_groundings scope.id g,
        λ other differ.
            ap (λ z. get z.decision_groundings other) after
            ∙ get-put_other s.decision_groundings scope.id other g differ,
        ap (λ z. evaluate_decision_scope digest z ident) after ∙ again scope w.is_open found,
      )
