-- ===== src/Scope/Validate/Accepted.antt =====
-- scope.py: the validation of grounding results accepts what the grounding of the scope's rule
-- returns.
use atlas_py.Store.Ancestry.{open_snapshot-get}
use atlas_py.Errors.{
  >>=-eq-ok, ok, require-of_true, require-pass, >>-of_ok, >>=-of_ok, refuse-of_false,
}
use atlas_py.Evidence.{evidence_for, validate_grounding_evidence}
use atlas_py.Graph.Walk.{ok_injective}
use atlas_py.Json.{Json, object, depth}
use atlas_py.Model.Grounding.{GroundingResult, is_true}
use atlas_py.Model.Scope.{DecisionScope}
use atlas_py.Model.Snapshot.{Snapshot}
use atlas_py.Prelude.{
  List, String, [], all, ap, arith, contains, contains-keep, eq_refl, is_some, keep, refl, some,
  sym, true, ◌∙◌, ◌∷◌, ◌≡◌, Bool-cases, distinct, inl, inr, suc, all_of_contains,
}
use atlas_py.Prelude.Dict.{Dict, get, has, keys, values}
use atlas_py.Rules.Ground
use atlas_py.Rules.Ground.{matches_declared, historical_rule}
use atlas_py.Rules.Ground.Bound.{bind_each_known, get-bind_each}
use atlas_py.Rules.Ground.Run.{Run, bindings-order, ground-Run, pending, sealed_evidence}
use atlas_py.Scope.Validate.{
  binds, check_bindings, check_conclusion_of, check_true, in_declared_order, check_dependencies,
  check_result, conclusion_dependencies, is_resolved_id,
}
use atlas_py.Scope.Validate.Agreement.{
  check_conclusion_of_cases, check_head_accepts, conclude_if_true_cases, fixed_definition_agrees,
  historical_parts_agrees, conclude-Concluded,
}
use atlas_py.Store.{Store, open_snapshot}
use atlas_py.Store.Ancestry.{IsHistory}
use atlas_py.Store.View.{effective_record_ids, prune, visible_supersessions}
use atlas_py.Values.{same_texts, same_texts_refl}
use mathlib.Core.Path.{subst}
use atlas_py.Problem.Support.{view_ids}
use atlas_py.Rules.{new_state}
use atlas_py.Rules.Expr.Distinct.{expr-Distinct}
use atlas_py.Rules.Ground.Reads.{ground_evidence, ground_reads}

-- Each snapshot holds records of the store only.
abbrev pub HoldsRecords : Store → Type 0
HoldsRecords s =
    (k x : String) (v : Snapshot)
    → get s.snapshots k ≡ some v
    → contains v.record_ids x ≡ true
    → has s.records x ≡ true

pub effective-contains :
    (s : Store) (id : String) (snapshot : Snapshot) (effective : List String)
    → open_snapshot s id ≡ ok snapshot
    → effective_record_ids s id ≡ ok effective
    → (y : String) → contains effective y ≡ true
    → contains snapshot.record_ids y ≡ true
unfolding effective_record_ids
effective-contains s id snapshot effective opened h y m =
    let (sn, e, h1) = >>=-eq-ok (open_snapshot s id) _ h in
    let (visible, e2, h2) = >>=-eq-ok (visible_supersessions s sn.id) _ h1 in
    let (left, e3, h3) = >>=-eq-ok (prune _ s.derivations _) _ h2 in
    let listed : contains (keep (contains left) sn.record_ids) y ≡ true =
      subst (λ l. contains l y ≡ true) (sym (ok_injective h3)) m in
    subst (λ z. contains z.record_ids y ≡ true) (ok_injective (sym e ∙ opened))
      (ground (arith, contains-keep (contains left) sn.record_ids y, listed))

abbrev pub bindings_of : DecisionScope → String → Dict String
bindings_of scope candidate = ("candidate", candidate) ∷ ("request", scope.request) ∷ []

declares_both :
    (scope : DecisionScope) (candidate : String) (declared : List String)
    → matches_declared (bindings_of scope candidate) declared ≡ true
    → (contains declared "candidate" ≡ true) × (contains declared "request" ≡ true)
unfolding matches_declared all
declares_both scope candidate declared h = (ground arith, ground arith)

binds_agrees :
    (bound : Dict String) (name value : String)
    → get bound name ≡ some value
    → binds bound name value ≡ true
unfolding binds
binds_agrees bound name value e = ground (arith, e, eq_refl value)

module _ (digest : Json → String) (s : Store) (scope : DecisionScope) (candidate rule_id : String)
    (r : GroundingResult) (history : IsHistory s) (held : HoldsRecords s)
    (prescribed : contains scope.manifest.prescribed_rule_ids rule_id ≡ true)
    (returned : Ground.ground digest s rule_id
        (bindings_of scope candidate)
        scope.snapshot
        scope.context
      ≡ ok r) where
  abbrev Ran : Type 0
  Ran = Run digest s rule_id (bindings_of scope candidate) scope.snapshot scope.context r

  run : Ran
  run =
      ground-Run digest s rule_id (bindings_of scope candidate) scope.snapshot scope.context r
        returned

  abbrev before : Ran → GroundingResult
  before w = pending rule_id scope.snapshot scope.context w.rule w.bound w.outcome w.conclusion

  -- The bindings of the result are those of the scope.
  bound_lem :
      (w : Ran)
      → (get w.bound "candidate" ≡ some candidate)
        × (get w.bound "request" ≡ some scope.request)
        × (all (contains w.snapshot.description_ids) (values w.bound) ≡ true)
  unfolding get all
  bound_lem w =
      let given = bindings_of scope candidate in
      let known = w.snapshot.description_ids in
      let (first, second) = declares_both scope candidate w.structure.0 w.matched in
      (
        get-bind_each given known w.structure.0 [] w.bound "candidate" w.bindings_made
            ∙ rw first refl,
        get-bind_each given known w.structure.0 [] w.bound "request" w.bindings_made
            ∙ rw second refl,
        bind_each_known given known w.structure.0 [] w.bound w.bindings_made refl,
      )

  evidence_of :
      (w : Ran)
      → (evidence : String) × (evidence_for digest (before w) w.structure.0 ≡ ok evidence)
        × (r ≡ record (before w) { grounding_evidence = evidence })
  evidence_of w =
      sealed_evidence digest s rule_id (bindings_of scope candidate) scope.snapshot scope.context r
        (before w) w.structure.0 w.sealed

  check_bindings_accepts :
      (w : Ran) (evidence : String)
      → evidence_for digest (before w) w.structure.0 ≡ ok evidence
      → check_bindings scope candidate w.snapshot (some w.structure.0) w.bound ≡ ok tt
  unfolding check_bindings in_declared_order
  check_bindings_accepts w evidence sealed =
      let (first, second, known) = bound_lem w in
      require-pass _
        (subst (λ l. same_texts (keys w.bound) l ≡ true)
          (bindings-order digest (before w) w.structure.0 evidence sealed)
          (same_texts_refl (keys w.bound)))
        (require-pass _ known (
          require-of_true _ (
            ground (
              arith,
              binds_agrees w.bound "candidate" candidate first,
              binds_agrees w.bound "request" scope.request second,
            ))))

  check_conclusion_accepts :
      (w : Ran) (evidence : String)
      → check_conclusion_of
          (object w.structure.1)
          (record (before w) { grounding_evidence = evidence })
        ≡ ok tt
  check_conclusion_accepts w evidence =
      let (on_true, otherwise) =
        conclude_if_true_cases w.outcome.truth _ w.conclusion w.concluded in
      check_conclusion_of_cases (object w.structure.1)
        (record (before w) { grounding_evidence = evidence })
        (λ true'.
          let (c, made, same) = on_true true' in
          subst
            (λ x.
              check_true (object w.structure.1)
                (record (before w) { grounding_evidence = evidence }) x
              ≡ ok tt)
            (sym same)
            (unfold check_true in
              check_head_accepts s w.snapshot rule_id w.rule w.context.visible_scopes w.structure.0
                w.structure.1 w.bound w.outcome.state
                (record (before w) { grounding_evidence = evidence }) c made refl refl))
        (λ false'. ap is_some (otherwise false'))

  conclusion_dependencies_agree :
      (w : Ran)
      → is_true w.outcome.truth ≡ true
      → conclusion_dependencies w.conclusion ≡ w.outcome.state.dependencies
  conclusion_dependencies_agree w true' =
      let (on_true, otherwise) =
        conclude_if_true_cases w.outcome.truth _ w.conclusion w.concluded in
      let (c, made, same) = on_true true' in
      let all_of =
        conclude-Concluded s w.snapshot rule_id w.rule w.context.visible_scopes w.structure.0
          w.structure.1 w.bound w.outcome.state c made in
      ap conclusion_dependencies same ∙ all_of.dependencies

  module _ (w : Ran) (effective : List String)
      (seen : effective_record_ids s scope.snapshot ≡ ok effective) where
    stored : get s.snapshots scope.snapshot ≡ some w.snapshot
    stored = open_snapshot-get s history scope.snapshot w.snapshot w.stored

    own_id : w.snapshot.id ≡ scope.snapshot
    own_id = history.same scope.snapshot w.snapshot stored

    resolved :
        (y : String)
        → contains r.effective_dependencies y ≡ true
        → is_resolved_id s effective y ≡ true
    unfolding is_resolved_id
    resolved y m =
        let (known, traced) =
          ground_reads digest s rule_id (bindings_of scope candidate) scope.snapshot scope.context r
            w.snapshot effective w.stored (ap (effective_record_ids s) own_id ∙ seen) returned in
        let held_y =
          held scope.snapshot y w.snapshot stored (
            effective-contains s scope.snapshot w.snapshot effective w.stored seen y
              (traced y m)) in
        ground (arith, traced y m, held_y)

    check_dependencies_accepts :
        (evidence : String)
        → r ≡ record (before w) { grounding_evidence = evidence }
        → check_dependencies s effective (record (before w) { grounding_evidence = evidence })
          ≡ ok tt
    unfolding check_dependencies distinct
    check_dependencies_accepts evidence same =
        let (condition, evaluated) = w.evaluated in
        let deps = w.outcome.state.dependencies in
        let all_resolved : all (is_resolved_id s effective) deps ≡ true =
          all_of_contains (is_resolved_id s effective) deps (λ y m.
            resolved y (subst (λ z. contains z.effective_dependencies y ≡ true) (sym same) m)) in
        require-pass _
          (expr-Distinct s w.bound w.snapshot w.context.visible_scopes (suc (depth w.rule.payload))
            condition new_state w.outcome evaluated refl)
          (require-pass _ all_resolved (
            refuse-of_false _ (elim (Bool-cases (is_true w.outcome.truth)) [
              | inl true' ↦ ground (
                arith,
                true',
                ap (all (is_resolved_id s effective)) (conclusion_dependencies_agree w true'),
                all_resolved,
              )
              | inr false' ↦ ground (arith, false')
            ])))

    check_made :
        (evidence : String)
        → evidence_for digest (before w) w.structure.0 ≡ ok evidence
        → r ≡ record (before w) { grounding_evidence = evidence }
        → check_result digest s scope candidate true
            (record (before w) { grounding_evidence = evidence })
            (some w.snapshot)
          ≡ ok tt
    unfolding check_result view_ids historical_rule
    check_made evidence sealed same =
        require-pass _ (ground (arith, eq_refl scope.snapshot, eq_refl scope.context)) (
          require-pass _ prescribed (
            >>=-of_ok _ (fixed_definition_agrees _ w.rule w.fixed) (
              >>=-of_ok _
                (historical_parts_agrees w.rule.payload w.fs w.structure w.fielded w.structured)
                (>>-of_ok (check_bindings_accepts w evidence sealed) (
                  >>-of_ok (check_conclusion_accepts w evidence) (
                    >>=-of_ok _ (ap (effective_record_ids s) own_id ∙ seen) (
                      >>-of_ok (check_dependencies_accepts evidence same) (
                        subst (λ z. validate_grounding_evidence digest z (keys z.bindings) ≡ ok tt)
                          same
                          (ground_evidence digest s rule_id (bindings_of scope candidate)
                            scope.snapshot scope.context r returned)))))))))

  -- In a well-formed history whose snapshots hold records of the store, and where the effective
  -- records of the scope's snapshot are computed, the validation against the historical world
  -- accepts every result that the grounding of a prescribed rule at the scope's bindings returns.
  pub check_result_accepts :
      (effective : List String)
      → effective_record_ids s scope.snapshot ≡ ok effective
      → check_result digest s scope candidate true r (get s.snapshots scope.snapshot) ≡ ok tt
  check_result_accepts effective seen =
      let w = run in
      let (evidence, sealed, same) = evidence_of w in
      subst
        (λ z. check_result digest s scope candidate true z (get s.snapshots scope.snapshot) ≡ ok tt)
        (sym same)
        (ap
            (check_result digest s scope candidate true
              (record (before w) { grounding_evidence = evidence }))
            (stored w effective seen)
          ∙ check_made w effective seen evidence sealed same)
