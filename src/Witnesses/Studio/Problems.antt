-- ===== src/Witnesses/Studio/Problems.antt =====
-- The problem of the scope, its admission and what is decided on it.
use atlas_py.Errors.{err, ok, stop_iteration, validation_error, key_error}
use atlas_py.Model.Scope.{DecisionGrounding, DecisionScope}
use atlas_py.Prelude.{
  [], ap, arith, contains, distinct, eq_iff, false, refl, some, some_injective, ◌∷◌, ◌≡◌,
}
use atlas_py.Prelude.Dict.{get}
use atlas_py.Prelude.Int.{pos}
use atlas_py.Problem.{
  ArtifactStatus, GroundedDecisionProblem, M1SelectionResult, check_problem, resolved,
}
use atlas_py.Problem.Access.{decision_problem, select_stored}
use atlas_py.Problem.Admit.{admit_m1_decision, decision_of, with_decision}
use atlas_py.Problem.Admit.Selected.{admit_m1_decision_selected}
use atlas_py.Problem.Build.{admit_problem, build_problem, with_problem}
use atlas_py.Problem.Build.Accepted.{DefinesRulesOnce, ObservesInOrder, validate_stored_accepts}
use atlas_py.Problem.Build.Admitted.{admit_problem_built}
use atlas_py.Problem.Equality.{problem_eq}
use atlas_py.Problem.Select.{select_result}
use atlas_py.Problem.Stored.{is_caught, status_of, validate_stored, status_known}
use atlas_py.Problem.Support.Agreement.{KeyedAssertions}
use atlas_py.Problem.Stored.Status.{Judges, status_of-Judges}
use atlas_py.Scope.Validate.{observed_ids}
use atlas_py.Store.{Store, open_snapshot}
use atlas_py.Store.Ancestry.{IsHistory}
use atlas_py.Witnesses.Studio.{studio_snapshot, evaluated, paints, stamp}

evaluated-IsHistory : IsHistory evaluated
unfolding get
evaluated-IsHistory = record {
  is_open = refl;
  same = λ k v h. ground (arith, eq_iff "s1" k);
  parents = λ k p v h e. ground (arith, eq_iff "s1" k);
}

evaluated-DefinesRulesOnce : DefinesRulesOnce evaluated
unfolding get distinct contains
evaluated-DefinesRulesOnce k v h = ground (arith, eq_iff "s1" k)

evaluated-KeyedAssertions : KeyedAssertions evaluated
unfolding atlas_py.Rules.Reads.assertions atlas_py.Prelude.Dict.get
evaluated-KeyedAssertions = (refl, (refl, (refl, (refl, tt))))

evaluated-ObservesInOrder : ObservesInOrder evaluated "d"
unfolding get
evaluated-ObservesInOrder scope g h k = ground (
  arith,
  h,
  k,
  ap (λ (x : DecisionScope). x.manifest.candidate_description_ids) (some_injective h),
  ap (λ (x : DecisionGrounding). observed_ids x.observations) (some_injective k),
)

builds : build_problem stamp evaluated "d" ≡ ok paints
unfolding atlas_py.Problem.Build.build_problem atlas_py.Store.check_open
    atlas_py.Problem.Access.decision_scope atlas_py.Problem.Access.decision_grounding
    atlas_py.Problem.Build.build_from atlas_py.Errors.expect atlas_py.Problem.Access.decision
    atlas_py.Prelude.Dict.get atlas_py.Scope.validate_scope_environment
    atlas_py.Problem.Build.require_complete atlas_py.Scope.Validate.compute_completeness
    atlas_py.Problem.Support.scope_context atlas_py.Problem.Build.the_m1_rule
    atlas_py.Problem.Support.objective_version atlas_py.Rules.Reads.candidates
    atlas_py.Problem.Build.build_candidates atlas_py.Problem.Build.observations_by
    atlas_py.Problem.Build.checked_objective atlas_py.Problem.Build.checked_problem
    atlas_py.Scope.validate_manifest atlas_py.Scope.check_environment
    atlas_py.Scope.check_compatible atlas_py.Prelude.distinct atlas_py.Prelude.all
    atlas_py.Prelude.contains atlas_py.Scope.Validate.validate_observations
    atlas_py.Scope.Validate.earned_status atlas_py.Store.open_snapshot
    atlas_py.Problem.Support.the_scopes atlas_py.Prelude.keep atlas_py.Problem.Support.the_version
    atlas_py.Rules.Reads.sort_by_id atlas_py.Rules.Reads.answers atlas_py.Rules.Reads.assertions
    atlas_py.Problem.Build.candidate_from atlas_py.Prelude.Dict.put atlas_py.Problem.check_objective
    atlas_py.Problem.check_problem atlas_py.Scope.agrees_with atlas_py.Scope.fixed_rules
    atlas_py.Scope.check_final_rules atlas_py.Scope.Validate.validate_observation
    atlas_py.Prelude.any atlas_py.Prelude.subset atlas_py.Store.subscript
    atlas_py.Rules.Reads.insert_by_id atlas_py.Rules.Reads.is_isolated
    atlas_py.Problem.Build.candidate_of atlas_py.Values.same_texts atlas_py.Scope.is_final_rule
    atlas_py.Scope.Validate.validate_result atlas_py.Scope.Discovery.validate_discovery
    atlas_py.Prelude.Order.text_lt atlas_py.Problem.Build.objective_if
    atlas_py.Problem.Build.checked_candidate atlas_py.Scope.same_version
    atlas_py.Scope.Validate.check_result atlas_py.Scope.Discovery.check_discovered
    atlas_py.Problem.Support.objective_for_true atlas_py.Problem.check_candidate
    atlas_py.Scope.Validate.fixed_definition atlas_py.Scope.Validate.historical_parts
    atlas_py.Scope.Validate.check_bindings atlas_py.Scope.Validate.check_conclusion_of
    atlas_py.Problem.Support.view_ids atlas_py.Scope.Validate.check_dependencies
    atlas_py.Evidence.validate_grounding_evidence atlas_py.Scope.Discovery.check_discovery
    atlas_py.Problem.Support.the_support atlas_py.Problem.Support.matches_cost
    atlas_py.Problem.Support.eligible_supports atlas_py.Scope.Validate.declared_names
    atlas_py.Json.lookup atlas_py.Scope.Validate.in_declared_order atlas_py.Scope.Validate.binds
    atlas_py.Scope.Validate.check_true atlas_py.Store.View.effective_record_ids
    atlas_py.Scope.Validate.is_resolved_id atlas_py.Evidence.evidence_for
    atlas_py.Scope.Discovery.is_one_version atlas_py.Scope.Discovery.discover_relation
    atlas_py.Scope.Discovery.same_certificate atlas_py.Problem.Support.missing_support
    atlas_py.Problem.Support.objective_of atlas_py.Json.texts atlas_py.Scope.Validate.letters
    atlas_py.Scope.Validate.field_names atlas_py.Scope.Validate.check_head
    atlas_py.Store.View.visible_supersessions atlas_py.Store.View.prune
    atlas_py.Store.View.is_unmasked atlas_py.Evidence.canonical_grounding
    atlas_py.Scope.Discovery.first_context atlas_py.Scope.Discovery.the_discovery_version
    atlas_py.Scope.Discovery.checked_query atlas_py.Scope.Discovery.checked_evidence
    atlas_py.Scope.Discovery.relation_matches atlas_py.Scope.Discovery.query_eq
    atlas_py.Problem.check_objective_value atlas_py.Scope.Validate.bound_participants
    atlas_py.Scope.Validate.has_text atlas_py.Store.View.visible_from
    atlas_py.Store.View.prune_round atlas_py.Evidence.exact_id atlas_py.Evidence.exact_text
    atlas_py.Evidence.bindings_json atlas_py.Evidence.conclusion_json
    atlas_py.Evidence.dependencies_json atlas_py.Evidence.each_json atlas_py.Evidence.missing_json
    atlas_py.Evidence.ambiguous_json atlas_py.Model.Discovery.check_query
    atlas_py.Model.Discovery.check_evidence atlas_py.Scope.Discovery.is_visible
    atlas_py.Scope.Discovery.sort_relations atlas_py.Scope.Discovery.matches_query
    atlas_py.Scope.Discovery.relations atlas_py.Scope.Validate.subscript_items
    atlas_py.Rules.Ground.subscript_all atlas_py.Rules.text_field
    atlas_py.Store.View.snapshot_descends_from atlas_py.Store.View.is_stale
    atlas_py.Store.View.remove atlas_py.Evidence.binding_json atlas_py.Evidence.scope_json
    atlas_py.Provenance.canonical_provenance atlas_py.Evidence.items
    atlas_py.Scope.Discovery.insert_relation atlas_py.Scope.Validate.subscript_name
    atlas_py.Store.View.ascend atlas_py.Prelude.Order.sorted_set
    atlas_py.Prelude.Order.insert_sorted atlas_py.Scope.Evaluate.run_status
builds = refl

validate_stored_accepts_example :
    (validate_stored stamp evaluated paints ≡ ok tt) × (check_problem paints ≡ ok tt)
validate_stored_accepts_example =
    validate_stored_accepts stamp evaluated "d" paints evaluated-IsHistory
      evaluated-DefinesRulesOnce evaluated-KeyedAssertions evaluated-ObservesInOrder refl builds

admit_problem_built_example :
    (admit_problem stamp evaluated "p" paints ≡ ok (with_problem evaluated "p" paints))
    × (decision_problem (with_problem evaluated "p" paints) "p" ≡ ok paints)
unfolding atlas_py.Store.check_open get
admit_problem_built_example =
    admit_problem_built stamp evaluated "d" "p" paints refl builds refl refl

-- The store with the problem, and with the decision that is selected on it.
abbrev posed : Store
posed = with_problem evaluated "p" paints

abbrev chosen_oil : M1SelectionResult
chosen_oil = select_result "p" resolved (some (pos 5)) ("oil" ∷ [])

stores_problem : decision_problem posed "p" ≡ ok paints
unfolding atlas_py.Problem.Access.decision_problem atlas_py.Prelude.Dict.put
    atlas_py.Store.check_open atlas_py.Errors.expect atlas_py.Problem.Access.decision
    atlas_py.Prelude.Dict.get
stores_problem = refl

well_formed : check_problem paints ≡ ok tt
unfolding atlas_py.Problem.check_problem atlas_py.Prelude.distinct atlas_py.Prelude.contains
well_formed = refl

selects_oil : select_stored posed "p" ≡ ok chosen_oil
unfolding atlas_py.Problem.Access.select_stored atlas_py.Prelude.Dict.put
    atlas_py.Problem.Access.decision_problem atlas_py.Problem.Select.select_m1
    atlas_py.Problem.Persisted.scope_semantics atlas_py.Prelude.Dict.get atlas_py.Store.check_open
    atlas_py.Errors.expect atlas_py.Problem.Access.decision atlas_py.Problem.Select.check_candidates
    atlas_py.Problem.Select.scoped_candidates atlas_py.Problem.Select.has_unknown
    atlas_py.Problem.Select.new_selection atlas_py.Problem.Select.prices
    atlas_py.Problem.Select.true_candidates atlas_py.Problem.Select.choose
    atlas_py.Problem.Select.check_local atlas_py.Prelude.keep atlas_py.Prelude.any
    atlas_py.Problem.check_selection atlas_py.Problem.Select.price atlas_py.Prelude.Int.minimum
    atlas_py.Problem.Select.co_optimal atlas_py.Problem.Select.matches_objective
    atlas_py.Prelude.distinct atlas_py.Prelude.contains
selects_oil = refl

admit_m1_decision_selected_example :
    admit_m1_decision posed "x" chosen_oil
    ≡ ok (with_decision posed (decision_of "x" chosen_oil), decision_of "x" chosen_oil)
unfolding get
admit_m1_decision_selected_example =
    admit_m1_decision_selected posed "p" "x" paints chosen_oil stores_problem well_formed
      selects_oil refl

abbrev decided : Store
decided = with_decision posed (decision_of "x" chosen_oil)

holds_decision : get decided.decisions "x" ≡ some (decision_of "x" chosen_oil)
unfolding get atlas_py.Prelude.Dict.put
holds_decision = refl

is_current_now : status_of stamp decided "x" (some "s1") ≡ ok ArtifactStatus.current
unfolding atlas_py.Problem.Stored.status_of atlas_py.Prelude.Dict.put atlas_py.Store.check_open
    atlas_py.Problem.Stored.status_at atlas_py.Prelude.Dict.get atlas_py.Rules.Reads.is_isolated
    atlas_py.Problem.Stored.invalid_unless atlas_py.Problem.Stored.status_known atlas_py.Prelude.any
    atlas_py.Problem.Stored.is_caught atlas_py.Store.subscript
    atlas_py.Problem.Stored.validate_stored atlas_py.Problem.Persisted.validate_persisted_decision
    atlas_py.Store.open_snapshot atlas_py.Store.View.snapshot_descends_from
    atlas_py.Problem.Access.decision atlas_py.Store.Dependencies.decision_dependency_closure
    atlas_py.Store.View.visible_supersessions atlas_py.Problem.Stored.source_of
    atlas_py.Problem.Stored.validate_from atlas_py.Problem.Persisted.validate_against
    atlas_py.Store.View.ascend atlas_py.Errors.expect atlas_py.Graph.visit_all
    atlas_py.Store.Dependencies.derivation_inputs atlas_py.Store.Dependencies.decision_reads
    atlas_py.Store.View.visible_from atlas_py.Scope.validate_scope_environment
    atlas_py.Problem.Build.require_complete atlas_py.Scope.Validate.compute_completeness
    atlas_py.Problem.Build.the_m1_rule atlas_py.Problem.Stored.check_rule
    atlas_py.Problem.Support.objective_version atlas_py.Problem.Build.checked_objective
    atlas_py.Problem.Equality.objective_eq atlas_py.Values.same_texts
    atlas_py.Problem.Support.scope_context atlas_py.Problem.Stored.check_pairs
    atlas_py.Problem.Validate.validate_outcome atlas_py.Problem.Persisted.scope_semantics
    atlas_py.Prelude.contains atlas_py.Graph.each atlas_py.Graph.visit
    atlas_py.Store.Dependencies.grounding_reads atlas_py.Store.Dependencies.candidate_reads
    atlas_py.Scope.validate_manifest atlas_py.Scope.check_environment
    atlas_py.Scope.check_compatible atlas_py.Prelude.distinct atlas_py.Prelude.all
    atlas_py.Scope.Validate.validate_observations atlas_py.Scope.Validate.earned_status
    atlas_py.Problem.Stored.the_definition atlas_py.Prelude.keep
    atlas_py.Problem.Support.the_version atlas_py.Problem.check_objective
    atlas_py.Problem.Support.the_scopes atlas_py.Problem.Stored.check_pair
    atlas_py.Problem.Select.has_unknown atlas_py.Problem.Select.scoped_candidates
    atlas_py.Problem.Validate.check_unresolved atlas_py.Problem.Validate.validate_known
    atlas_py.Store.Dependencies.included_evidence atlas_py.Scope.agrees_with
    atlas_py.Scope.fixed_rules atlas_py.Scope.check_final_rules
    atlas_py.Scope.Validate.validate_observation atlas_py.Prelude.subset
    atlas_py.Problem.Stored.has_truth atlas_py.Problem.Stored.has_result
    atlas_py.Problem.Equality.same_option atlas_py.Problem.Stored.check_priced
    atlas_py.Problem.Select.true_candidates atlas_py.Problem.Select.prices
    atlas_py.Problem.Validate.check_resolved atlas_py.Scope.is_final_rule
    atlas_py.Scope.Validate.validate_result atlas_py.Scope.Discovery.validate_discovery
    atlas_py.Problem.Equality.result_eq atlas_py.Problem.Select.matches_objective
    atlas_py.Problem.Support.validate_support atlas_py.Problem.Select.price
    atlas_py.Problem.Validate.check_costs atlas_py.Problem.Validate.from_pairs
    atlas_py.Scope.same_version atlas_py.Scope.Validate.check_result
    atlas_py.Scope.Discovery.check_discovered atlas_py.Problem.Equality.same_bindings
    atlas_py.Problem.Equality.conclusion_eq atlas_py.Problem.Equality.same_list
    atlas_py.Problem.Equality.missing_eq atlas_py.Problem.Equality.ambiguous_eq
    atlas_py.Problem.Support.referenced_property atlas_py.Problem.Support.view_ids
    atlas_py.Problem.Support.check_unique atlas_py.Problem.Support.eligible_supports
    atlas_py.Prelude.Int.minimum atlas_py.Problem.Validate.same_set
    atlas_py.Problem.Select.co_optimal atlas_py.Scope.Validate.fixed_definition
    atlas_py.Scope.Validate.historical_parts atlas_py.Scope.Validate.check_bindings
    atlas_py.Scope.Validate.check_conclusion_of atlas_py.Scope.Validate.check_dependencies
    atlas_py.Evidence.validate_grounding_evidence atlas_py.Scope.Discovery.check_discovery
    atlas_py.Model.Knowledge.scope_eq atlas_py.Store.View.effective_record_ids
    atlas_py.Problem.Support.matches_cost atlas_py.Rules.Reads.assertions
    atlas_py.Scope.Validate.declared_names atlas_py.Json.lookup
    atlas_py.Scope.Validate.in_declared_order atlas_py.Scope.Validate.binds
    atlas_py.Scope.Validate.check_true atlas_py.Scope.Validate.is_resolved_id
    atlas_py.Evidence.evidence_for atlas_py.Scope.Discovery.is_one_version
    atlas_py.Scope.Discovery.discover_relation atlas_py.Scope.Discovery.same_certificate
    atlas_py.Store.View.prune atlas_py.Store.View.is_unmasked atlas_py.Json.texts
    atlas_py.Scope.Validate.letters atlas_py.Scope.Validate.field_names
    atlas_py.Scope.Validate.check_head atlas_py.Evidence.canonical_grounding
    atlas_py.Scope.Discovery.first_context atlas_py.Scope.Discovery.the_discovery_version
    atlas_py.Scope.Discovery.checked_query atlas_py.Scope.Discovery.checked_evidence
    atlas_py.Scope.Discovery.relation_matches atlas_py.Scope.Discovery.query_eq
    atlas_py.Store.View.prune_round atlas_py.Scope.Validate.bound_participants
    atlas_py.Scope.Validate.has_text atlas_py.Evidence.exact_id atlas_py.Evidence.exact_text
    atlas_py.Evidence.bindings_json atlas_py.Evidence.conclusion_json
    atlas_py.Evidence.dependencies_json atlas_py.Evidence.each_json atlas_py.Evidence.missing_json
    atlas_py.Evidence.ambiguous_json atlas_py.Model.Discovery.check_query
    atlas_py.Model.Discovery.check_evidence atlas_py.Scope.Discovery.is_visible
    atlas_py.Scope.Discovery.sort_relations atlas_py.Scope.Discovery.matches_query
    atlas_py.Scope.Discovery.relations atlas_py.Store.View.is_stale atlas_py.Store.View.remove
    atlas_py.Scope.Validate.subscript_items atlas_py.Rules.Ground.subscript_all
    atlas_py.Rules.text_field atlas_py.Evidence.binding_json atlas_py.Evidence.scope_json
    atlas_py.Provenance.canonical_provenance atlas_py.Evidence.items
    atlas_py.Scope.Discovery.insert_relation atlas_py.Scope.Validate.subscript_name
    atlas_py.Prelude.Order.sorted_set atlas_py.Prelude.Order.text_lt
    atlas_py.Prelude.Order.insert_sorted atlas_py.Scope.Evaluate.run_status
is_current_now = refl

decided-IsHistory : IsHistory decided
unfolding get
decided-IsHistory = record {
  is_open = refl;
  same = λ k v h. ground (arith, eq_iff "s1" k);
  parents = λ k p v h e. ground (arith, eq_iff "s1" k);
}

opens_first : open_snapshot decided "s1" ≡ ok studio_snapshot
unfolding atlas_py.Store.open_snapshot atlas_py.Store.check_open atlas_py.Store.subscript get
opens_first = refl

status_of-Judges_example :
    Judges decided (decision_of "x" chosen_oil) studio_snapshot ArtifactStatus.current
unfolding get
status_of-Judges_example =
    status_of-Judges stamp decided "x" "s1" studio_snapshot (decision_of "x" chosen_oil)
      ArtifactStatus.current decided-IsHistory opens_first holds_decision is_current_now (λ e. cc e)
