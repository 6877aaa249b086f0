-- ===== src/Problem/Build/Accepted.antt =====
-- problem.py: the validation of a stored problem accepts what the construction returns.
use atlas_py.Store.Ancestry.{open_snapshot-get}
use atlas_py.Errors.{
  >>-eq-ok, >>=-eq-ok, >>=-of_ok, expect, ok, require, require-of_true, require-pass, require-true,
  >>-of_ok,
}
use atlas_py.Graph.Walk.{ok_injective}
use atlas_py.Json.{Json}
use atlas_py.Model.Grounding.{GroundingStatus}
use atlas_py.Model.Scope.{DecisionGrounding, DecisionScope, is_current}
use atlas_py.Model.Snapshot.{ContextDefinition, Snapshot}
use atlas_py.Prelude.{
  List, Option, String, [], ap, distinct, eq_refl, none, refl, some, sym, true, ◌==◌, ◌∙◌, ◌∷◌, ◌≡◌,
  arith, ◌&&◌,
}
use atlas_py.Prelude.Dict.{get}
use atlas_py.Problem.{
  GroundedCandidate, GroundedDecisionProblem, check_objective, check_problem, candidate_ids,
}
use atlas_py.Problem.Build.{
  build_candidates, build_from, checked_objective, checked_problem, cost_objective, observations_by,
  problem_of, require_complete, the_m1_rule, Environment, build_problem,
}
use atlas_py.Problem.Build.Rule.{environment_rules, fixed_rule, rule_ids}
use atlas_py.Problem.Stored.{
  check_rule, the_definition, check_pairs, source_of, validate_from, validate_stored,
}
use atlas_py.Problem.Support.{objective_version, scope_context, the_scopes}
use atlas_py.Scope.{check_compatible, check_final_rules, fixed_rules, validate_scope_environment}
use atlas_py.Scope.Validate.{compute_completeness, observed_ids}
use atlas_py.Store.{Store, open_snapshot, check_open}
use atlas_py.Store.Ancestry.{IsHistory}
use mathlib.Core.Path.{subst}
use atlas_py.Problem.Access.{decision_grounding, decision_scope}
use atlas_py.Problem.Build.Pairs.{check_pairs_accepts, observations_by_own}
use atlas_py.Problem.Equality.{objective_eq}
use atlas_py.Problem.Equality.Reflexive.{objective_eq_refl}
use atlas_py.Problem.Support.Agreement.{KeyedAssertions}
use atlas_py.Values.{same_texts, same_texts_refl}
use atlas_py.Rules.Ground.Bound.{subscript_of_get}

-- The snapshots of the store define each rule once.
abbrev pub DefinesRulesOnce : Store → Type 0
DefinesRulesOnce s =
    (k : String) (v : Snapshot)
    → get s.snapshots k ≡ some v
    → distinct (rule_ids v.rule_definitions) ≡ true

-- The stored grounding of a scope observes the candidates of its manifest, in order.
abbrev pub ObservesInOrder : Store → String → Type 0
ObservesInOrder s ident =
    (scope : DecisionScope) (g : DecisionGrounding)
    → get s.decision_scopes ident ≡ some scope
    → get s.decision_groundings ident ≡ some g
    → observed_ids g.observations ≡ scope.manifest.candidate_description_ids

the_m1_rule_listed :
    (ids : List String) (rule : String) → the_m1_rule ids ≡ ok rule → ids ≡ rule ∷ []
unfolding the_m1_rule
the_m1_rule_listed [] rule h = cc
the_m1_rule_listed (r ∷ []) rule h = ap (λ z. z ∷ []) (ok_injective h)
the_m1_rule_listed (r ∷ q ∷ ids) rule h = cc

expect-some :
    {A : Type 0} (message : String) (o : Option A) (a : A) → expect message o ≡ ok a → o ≡ some a
unfolding expect
expect-some message none a h = cc
expect-some message (some b) a h = ap some (ok_injective h)

the_scopes-snapshot :
    (snapshot : Snapshot) (cs : List ContextDefinition) (found : Snapshot × List String)
    → the_scopes snapshot cs ≡ ok found
    → found.0 ≡ snapshot
unfolding the_scopes
the_scopes-snapshot snapshot [] found h = cc
the_scopes-snapshot snapshot (c ∷ []) found h = ap (λ p. p.0) (sym (ok_injective h))
the_scopes-snapshot snapshot (c ∷ d ∷ cs) found h = cc

scope_context-snapshot :
    (s : Store) (scope : DecisionScope) (found : Snapshot × List String)
    → scope_context s scope ≡ ok found
    → open_snapshot s scope.snapshot ≡ ok found.0
unfolding scope_context
scope_context-snapshot s scope found h =
    let (snapshot, e, h1) = >>=-eq-ok (open_snapshot s scope.snapshot) _ h in
    e ∙ ap ok (sym (the_scopes-snapshot snapshot _ found h1))

completeness_distinct :
    (digest : Json → String) (s : Store) (scope : DecisionScope) (g : DecisionGrounding)
    (computed : GroundingStatus)
    → compute_completeness digest s scope g ≡ ok computed
    → distinct (observed_ids g.observations) ≡ true
unfolding compute_completeness
completeness_distinct digest s scope g computed h =
    let (environment, h1) = >>-eq-ok (validate_scope_environment s scope) h in
    let (compatible, h2) = >>-eq-ok (check_compatible scope g) h1 in
    let (unique, h3) = >>-eq-ok (require (distinct (observed_ids g.observations)) _) h2 in
    require-true _ unique

module _ (digest : Json → String) (s : Store) (p : GroundedDecisionProblem) where
  -- The steps of a construction that returns.
  pub record Built (scope : DecisionScope) (g : DecisionGrounding) : Type 0 where
    pub same_scope : (g.scope_id == scope.id) ≡ true
    pub environment : validate_scope_environment s scope ≡ ok tt
    pub complete : require_complete g.status ≡ ok tt
    pub computed : GroundingStatus
    pub recomputed : compute_completeness digest s scope g ≡ ok computed
    pub still_complete : require_complete computed ≡ ok tt
    pub historical : Snapshot × List String
    pub context : scope_context s scope ≡ ok historical
    pub rule : String
    pub alone : the_m1_rule scope.manifest.prescribed_rule_ids ≡ ok rule
    pub version : String
    pub versioned : objective_version historical.0 ≡ ok version
    pub candidates : List GroundedCandidate
    pub made :
        build_candidates s
          (record {
            modern = is_current g.schema;
            snapshot = historical.0;
            visible = historical.1;
            version = version;
          })
          (observations_by [] g.observations)
          scope.manifest.candidate_description_ids
        ≡ ok candidates
    pub objective_checked : check_objective (cost_objective version) ≡ ok tt
    pub is_problem : p ≡ problem_of scope rule (cost_objective version) candidates
    pub problem_checked : check_problem p ≡ ok tt

  build_from-Built :
      (scope : DecisionScope) (g : DecisionGrounding)
      → build_from digest s scope g ≡ ok p
      → Built scope g
  unfolding build_from checked_objective checked_problem
  build_from-Built scope g h =
      let (same, h1) = >>-eq-ok (require (g.scope_id == scope.id) _) h in
      let (environment, h2) = >>-eq-ok (validate_scope_environment s scope) h1 in
      let (complete, h3) = >>-eq-ok (require_complete g.status) h2 in
      let (computed, e4, h4) = >>=-eq-ok (compute_completeness digest s scope g) _ h3 in
      let (still, h5) = >>-eq-ok (require_complete computed) h4 in
      let (historical, e6, h6) = >>=-eq-ok (scope_context s scope) _ h5 in
      let (rule, e7, h7) = >>=-eq-ok (the_m1_rule scope.manifest.prescribed_rule_ids) _ h6 in
      let (version, e8, h8) = >>=-eq-ok (objective_version historical.0) _ h7 in
      let (candidates, e9, h9) =
        >>=-eq-ok
          (build_candidates s _ (observations_by [] g.observations)
            scope.manifest.candidate_description_ids)
          _ h8 in
      let (objective, e10, h10) = >>=-eq-ok (checked_objective (cost_objective version)) _ h9 in
      let (checked, e11) = >>-eq-ok (check_objective (cost_objective version)) e10 in
      let (formed, h11) =
        >>-eq-ok (check_problem (problem_of scope rule objective candidates)) h10 in
      let objective' : cost_objective version ≡ objective = ok_injective e11 in
      let p' : problem_of scope rule objective candidates ≡ p = ok_injective h11 in
      record {
        same_scope = require-true _ same;
        environment = environment;
        complete = complete;
        computed = computed;
        recomputed = e4;
        still_complete = still;
        historical = historical;
        context = e6;
        rule = rule;
        alone = e7;
        version = version;
        versioned = e8;
        candidates = candidates;
        made = e9;
        objective_checked = checked;
        is_problem = sym p' ∙ ap (λ o. problem_of scope rule o candidates) (sym objective');
        problem_checked = subst (λ z. check_problem z ≡ ok tt) p' formed;
      }

  check_rule_accepts :
      (scope : DecisionScope) (g : DecisionGrounding) (w : Built scope g)
      → IsHistory s
      → DefinesRulesOnce s
      → p.rule_id ≡ w.rule
      → check_rule s p w.rule w.historical.0 ≡ ok tt
  unfolding check_rule the_definition
  check_rule_accepts scope g w history once same =
      let snapshot = w.historical.0 in
      let stored =
        open_snapshot-get s history scope.snapshot snapshot
          (scope_context-snapshot s scope w.historical w.context) in
      let f = fixed_rule s snapshot w.rule (once scope.snapshot snapshot stored) (
        subst (λ ids. check_final_rules s (fixed_rules [] snapshot.rule_definitions) ids ≡ ok tt)
          (the_m1_rule_listed scope.manifest.prescribed_rule_ids w.rule w.alone)
          (environment_rules s scope snapshot stored w.environment)) in
      >>=-of_ok _ (ap the_definition f.alone) (
        require-pass _ (subst (λ z. (z == w.rule) ≡ true) (sym same) (eq_refl w.rule)) (
          >>=-of_ok _ (subscript_of_get s.rules w.rule f.active f.stored)
            (require-of_true _ f.agrees)))

  module _ (scope : DecisionScope) (g : DecisionGrounding) (w : Built scope g)
      (history : IsHistory s) (once : DefinesRulesOnce s) (keyed : KeyedAssertions s)
      (in_order : observed_ids g.observations ≡ scope.manifest.candidate_description_ids) where
    abbrev env : Environment
    env = record {
      modern = is_current g.schema;
      snapshot = w.historical.0;
      visible = w.historical.1;
      version = w.version;
    }

    pairs :
        (check_pairs s env p w.candidates g.observations ≡ ok tt)
        × (candidate_ids w.candidates ≡ observed_ids g.observations)
    pairs =
        let observed = observations_by [] g.observations in
        check_pairs_accepts s env keyed p observed g.observations w.candidates
          (ap (λ z. z.objective) w.is_problem)
          (observations_by_own g.observations []
            (completeness_distinct digest s scope g w.computed w.recomputed))
          (subst (λ ids. build_candidates s env observed ids ≡ ok w.candidates) (sym in_order)
            w.made)

    names_agree :
        (same_texts (candidate_ids w.candidates) scope.manifest.candidate_description_ids
          && same_texts (observed_ids g.observations) scope.manifest.candidate_description_ids)
        ≡ true
    names_agree =
        let ids = scope.manifest.candidate_description_ids in
        ground (
          arith,
          subst (λ z. same_texts z ids ≡ true) (sym (pairs.1 ∙ in_order)) (same_texts_refl ids),
          subst (λ z. same_texts z ids ≡ true) (sym in_order) (same_texts_refl ids),
        )

    validate_from_accepts : validate_from digest s p scope g ≡ ok tt
    unfolding validate_from checked_objective
    validate_from_accepts =
        let made = w.is_problem in
        >>-of_ok w.environment (
          require-pass _
            (subst
              (λ z.
                (z.snapshot == scope.snapshot
                  && z.context == scope.context
                  && z.request == scope.request
                  && z.manifest_version == scope.manifest.manifest_version)
                ≡ true)
              (sym made)
              (ground (
                arith,
                eq_refl scope.snapshot,
                eq_refl scope.context,
                eq_refl scope.request,
                eq_refl scope.manifest.manifest_version,
              )))
            (>>-of_ok w.complete (
              >>=-of_ok _ w.recomputed (
                >>-of_ok w.still_complete (
                  >>=-of_ok _ w.alone (
                    >>=-of_ok _ (scope_context-snapshot s scope w.historical w.context) (
                      >>-of_ok
                        (check_rule_accepts scope g w history once (ap (λ z. z.rule_id) made))
                        (>>=-of_ok _ w.versioned (
                          >>=-of_ok _ (>>-of_ok w.objective_checked refl) (
                            require-pass _
                              (subst
                                (λ z. objective_eq z.objective (cost_objective w.version) ≡ true)
                                (sym made) (objective_eq_refl (cost_objective w.version)))
                              (require-pass _
                                (subst
                                  (λ z.
                                    (same_texts (candidate_ids z.candidates)
                                        scope.manifest.candidate_description_ids
                                      && same_texts (observed_ids g.observations)
                                          scope.manifest.candidate_description_ids)
                                    ≡ true)
                                  (sym made) names_agree)
                                (>>=-of_ok _ w.context (
                                  subst (λ cs. check_pairs s env p cs g.observations ≡ ok tt)
                                    (ap (λ z. z.candidates) (sym made)) pairs.0)))))))))))))

module _ (digest : Json → String) (s : Store) (ident : String) (p : GroundedDecisionProblem)
    (history : IsHistory s) (once : DefinesRulesOnce s) (keyed : KeyedAssertions s)
    (in_order : ObservesInOrder s ident) (own : p.scope_id ≡ ident)
    (returned : build_problem digest s ident ≡ ok p) where
  -- The problem that is built from a scope under its own identity passes the validation of stored
  -- problems, and its constructor's checks, in a well-formed history that defines each rule of a
  -- snapshot once, stores property assertions under their identities, and whose grounding of the
  -- scope observes the candidates of the manifest in order.
  pub validate_stored_accepts : (validate_stored digest s p ≡ ok tt) × (check_problem p ≡ ok tt)
  unfolding build_problem validate_stored decision_scope decision_grounding source_of
  validate_stored_accepts =
      let (is_open, h1) = >>-eq-ok (check_open s) returned in
      let (scope, e2, h2) = >>=-eq-ok (decision_scope s ident) _ h1 in
      let (g, e3, h3) = >>=-eq-ok (decision_grounding s scope.id) _ h2 in
      let (open_again, e2') = >>-eq-ok (check_open s) e2 in
      let (open_still, e3') = >>-eq-ok (check_open s) e3 in
      let w = build_from-Built digest s p scope g h3 in
      let its_id : p.scope_id ≡ scope.id = ap (λ z. z.scope_id) w.is_problem in
      let there = expect-some "unknown decision scope" (get s.decision_scopes ident) scope e2' in
      let grounded =
        expect-some "unknown decision scope grounding" (get s.decision_groundings scope.id) g e3' in
      let grounded' : get s.decision_groundings p.scope_id ≡ some g =
        ap (get s.decision_groundings) its_id ∙ grounded in
      (
        >>-of_ok is_open (
            >>=-of_ok _
              (ap (λ z. source_of z (get s.decision_groundings p.scope_id))
                  (ap (get s.decision_scopes) own ∙ there)
                ∙ ap (source_of (some scope)) grounded')
              (validate_from_accepts digest s p scope g w history once keyed (
                in_order scope g there
                  (subst (λ k. get s.decision_groundings k ≡ some g) own grounded')))),
        w.problem_checked,
      )
