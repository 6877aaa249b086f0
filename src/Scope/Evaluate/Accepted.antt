-- ===== src/Scope/Evaluate/Accepted.antt =====
-- scope.py: the checks at the end of `evaluate`, which read the run again against the history,
-- accept every run.
use atlas_py.Rules.Ground
use atlas_py.Errors.{>>-of_ok, ok, >>=-of_ok, refuse-of_false, require-of_true, require-pass}
use atlas_py.Graph.Walk.{ok_injective}
use atlas_py.Json.{Json}
use atlas_py.Model.Discovery.{DiscoveryEvidence}
use atlas_py.Model.Grounding.{GroundingResult}
use atlas_py.Model.Scope.{
  DecisionScope, GroundingManifest, GroundingObservation, check_manifest, check_grounding,
}
use atlas_py.Prelude.{
  List, String, [], any, ap, arith, contains, distinct, eq_iff, false, not, refl, subset, sym, true,
  ◌∙◌, ◌∷◌, ◌≡◌, all, all_of_contains, subset_refl,
}
use atlas_py.Prelude.Dict.{get}
use atlas_py.Rules.Ground.Bound.{get_of_subscript}
use atlas_py.Scope.Discovery.{check_discovered, discover_relation, validate_discovery}
use atlas_py.Scope.Discovery.Accepted.{validate_discovery_accepts}
use atlas_py.Scope.Discovery.Partition.{discover_relation-DiscoveryRun}
use atlas_py.Scope.Evaluate.{
  run_of, run_status, status_is, the_prescribed_rule, conclude_run, evaluate, observation_of,
  observe_each,
}
use atlas_py.Scope.Evaluate.Run.{
  EachObserved, Observed, EachObserved-candidates, observe_each-EachObserved,
}
use atlas_py.Scope.Validate.{
  check_result, earned_status, observed_ids, validate_observation, validate_observations,
  validate_result, compute_completeness,
}
use atlas_py.Scope.Validate.Accepted.{HoldsRecords, bindings_of, check_result_accepts}
use atlas_py.Store.{Store}
use atlas_py.Store.Ancestry.{IsHistory}
use atlas_py.Store.View.{effective_record_ids}
use mathlib.Core.Path.{subst}
use atlas_py.Scope.{check_compatible, validate_scope_environment}

the_rule_listed :
    (ids : List String) (rule : String)
    → the_prescribed_rule ids ≡ ok rule
    → contains ids rule ≡ true
unfolding the_prescribed_rule contains
the_rule_listed [] rule h = cc
the_rule_listed (r ∷ []) rule h = ground (arith, ok_injective h, eq_iff r rule)
the_rule_listed (r ∷ q ∷ ids) rule h = cc

distinct_candidates :
    (m : GroundingManifest) → check_manifest m ≡ ok tt → distinct m.candidate_description_ids ≡ true
unfolding check_manifest
distinct_candidates m h = ground arith

module _ (digest : Json → String) (s : Store) (scope : DecisionScope) (rule : String)
    (history : IsHistory s) (held : HoldsRecords s)
    (prescribed : contains scope.manifest.prescribed_rule_ids rule ≡ true) where
  validate_grounded :
      (candidate : String) (e : DiscoveryEvidence) (r : GroundingResult)
      → discover_relation s scope candidate ≡ ok e
      → Ground.ground digest s rule (bindings_of scope candidate) scope.snapshot scope.context
        ≡ ok r
      → check_result digest s scope candidate true r (get s.snapshots scope.snapshot) ≡ ok tt
  validate_grounded candidate e r found made =
      let w = discover_relation-DiscoveryRun s scope candidate e found in
      let own =
        history.same scope.snapshot w.snapshot
          (get_of_subscript s.snapshots scope.snapshot w.snapshot w.stored) in
      check_result_accepts digest s scope candidate rule r history held prescribed made w.effective
        (ap (effective_record_ids s) (sym own) ∙ w.seen)

  validate_observation_accepts :
      (candidate : String) (o : GroundingObservation)
      → Observed digest s scope rule candidate o
      → validate_observation digest s scope true o ≡ ok tt
  unfolding validate_observation validate_result validate_discovery check_discovered
  validate_observation_accepts candidate o (Observed.grounded e r _ found made same) =
      subst (λ x. validate_observation digest s scope true x ≡ ok tt) (sym same)
        (>>-of_ok (validate_grounded candidate e r found made) (
          validate_discovery_accepts s scope candidate e found (observation_of candidate e r) refl
            refl))
  validate_observation_accepts candidate o (Observed.failed message raised _ e m same) =
      subst (λ x. validate_observation digest s scope true x ≡ ok tt) (sym same) refl

  validate_observations_accepts :
      {cs : List String} {os : List GroundingObservation}
      → EachObserved digest s scope rule cs os
      → validate_observations digest s scope true os ≡ ok tt
  unfolding validate_observations
  validate_observations_accepts EachObserved.done = refl
  validate_observations_accepts (EachObserved.next c o one' rest) =
      >>-of_ok (validate_observation_accepts c o one') (validate_observations_accepts rest)

earned_agrees :
    (ids : List String) (scope : DecisionScope) (os : List GroundingObservation)
    → observed_ids os ≡ ids
    → any (λ o. not o.traversed) os ≡ false
    → status_is (earned_status ids (run_of scope os)) (run_status os) ≡ true
unfolding earned_status run_status status_is
earned_agrees ids scope os same walked = ground (
  arith,
  walked,
  subst (λ l. subset (observed_ids os) l ≡ true) same (subset_refl (observed_ids os)),
  subst (λ l. subset l (observed_ids os) ≡ true) same (subset_refl (observed_ids os)),
)

module _ (digest : Json → String) (s : Store) (scope : DecisionScope) (rule : String)
    (os : List GroundingObservation) (history : IsHistory s) (held : HoldsRecords s)
    (unique : the_prescribed_rule scope.manifest.prescribed_rule_ids ≡ ok rule)
    (environment : validate_scope_environment s scope ≡ ok tt)
    (listed : check_manifest scope.manifest ≡ ok tt)
    (observed : observe_each digest s scope rule scope.manifest.candidate_description_ids
      ≡ ok os) where
  each : EachObserved digest s scope rule scope.manifest.candidate_description_ids os
  each =
      observe_each-EachObserved digest s scope rule scope.manifest.candidate_description_ids os
        observed

  names_distinct : distinct (observed_ids os) ≡ true
  names_distinct =
      let (same, walked) = EachObserved-candidates digest s scope rule each in
      subst (λ l. distinct l ≡ true) (sym same) (distinct_candidates scope.manifest listed)

  compute_completeness_accepts :
      compute_completeness digest s scope (run_of scope os)
      ≡ ok (earned_status scope.manifest.candidate_description_ids (run_of scope os))
  unfolding compute_completeness check_compatible
  compute_completeness_accepts =
      let ids = scope.manifest.candidate_description_ids in
      let (same, walked) = EachObserved-candidates digest s scope rule each in
      >>-of_ok environment (
        >>-of_ok (refuse-of_false _ (ground arith)) (
          require-pass _ names_distinct (
            require-pass _
              (subst (λ l. all (contains l) (observed_ids os) ≡ true) same
                (all_of_contains (contains (observed_ids os)) (observed_ids os) (λ y m. m)))
              (>>-of_ok
                (validate_observations_accepts digest s scope rule history held
                  (the_rule_listed scope.manifest.prescribed_rule_ids rule unique) each)
                refl))))

  -- Where the one prescribed rule is found, the environment of the scope and its manifest are valid,
  -- each snapshot holds records of the store, and each candidate is observed (a grounding error is
  -- an observation too), the evaluation returns those observations: none of the checks at its end
  -- refuses them.
  pub evaluate_returns : evaluate digest s scope ≡ ok (run_of scope os)
  unfolding evaluate conclude_run check_grounding
  evaluate_returns =
      let (same, walked) = EachObserved-candidates digest s scope rule each in
      >>-of_ok environment (
        >>=-of_ok _ unique (
          >>=-of_ok _ observed (
            >>-of_ok (require-of_true _ names_distinct) (
              >>=-of_ok _ compute_completeness_accepts (
                require-pass _
                  (earned_agrees scope.manifest.candidate_description_ids scope os same walked)
                  refl)))))
