-- ===== src/Rules/Ground/Reads.antt =====
-- What a grounding result says of the reads and of the evidence.
use atlas_py.Errors.{ok, require, validation_error, ◌>>=◌}
use atlas_py.Evidence.{canonical_grounding, evidence_for, validate_grounding_evidence}
use atlas_py.Graph.Walk.{absurd_contains, ok_injective}
use atlas_py.Json.{Json, depth}
use atlas_py.Model.Grounding.{GroundingResult, is_unknown}
use atlas_py.Model.Snapshot.{Snapshot}
use atlas_py.Prelude.{
  Bool, List, String, ap, contains, eq_refl, false, inl, inr, is_empty, not, refl, suc, sym, true,
  ◌&&◌, ◌==◌, ◌∙◌, ◌≡◌,
}
use atlas_py.Prelude.Dict.{Dict, keys}
use atlas_py.Rules.{new_state}
use atlas_py.Rules.Expr.Certain.{expr-Accounts}
use atlas_py.Rules.Ground.{ground}
use atlas_py.Rules.Ground.Run.{bindings-order, ground-Run, pending, sealed_evidence}
use atlas_py.Rules.Reads.Effective.{certain}
use atlas_py.Store.{Store, open_snapshot}
use atlas_py.Store.View.{effective_record_ids}
use mathlib.Core.Path.{subst}

not-swap : (a b : Bool) → a ≡ not b → b ≡ not a
not-swap a true h = ap not (sym h)
not-swap a false h = ap not (sym h)

-- What the digest is taken of does not hold the evidence.
canonical-sealed :
    (p : GroundingResult) (declared : List String) (evidence : String)
    → canonical_grounding (record p { grounding_evidence = evidence }) declared
      ≡ canonical_grounding p declared
unfolding canonical_grounding
canonical-sealed p declared evidence = refl

evidence-sealed :
    (digest : Json → String) (p : GroundingResult) (declared : List String) (evidence : String)
    → evidence_for digest (record p { grounding_evidence = evidence }) declared
      ≡ evidence_for digest p declared
unfolding evidence_for
evidence-sealed digest p declared evidence =
    ap (λ m. m >>= λ c. ok (digest c)) (canonical-sealed p declared evidence)

resealed :
    (digest : Json → String) (p : GroundingResult) (declared : List String) (evidence : String)
    → evidence_for digest p declared ≡ ok evidence
    → validate_grounding_evidence digest (record p { grounding_evidence = evidence }) declared
      ≡ ok tt
unfolding validate_grounding_evidence
resealed digest p declared evidence h =
    ap
      (λ m. m >>= λ expected.
        require (evidence == expected)
          (validation_error "grounding evidence does not match grounding content"))
      (evidence-sealed digest p declared evidence ∙ h)
    ∙ ap (λ b. require b (validation_error "grounding evidence does not match grounding content"))
        (eq_refl evidence)

abbrev IsAccounted : List String → GroundingResult → Type 0
IsAccounted effective r =
    (is_unknown r.truth ≡ not (is_empty r.missing_reads && is_empty r.ambiguous_reads))
    × ((y : String) → contains r.effective_dependencies y ≡ true → contains effective y ≡ true)

module _ (digest : Json → String) (s : Store) (rule_id : String) (bindings : Dict String)
    (snapshot_id context_id : String) (r : GroundingResult) where
  -- Where the effective records of the snapshot are computed, a grounding result is unknown exactly
  -- when it lists a missing or an ambiguous read, and it depends on effective records only.
  pub ground_reads :
      (snapshot : Snapshot) (effective : List String)
      → open_snapshot s snapshot_id ≡ ok snapshot
      → effective_record_ids s snapshot.id ≡ ok effective
      → ground digest s rule_id bindings snapshot_id context_id ≡ ok r
      → (is_unknown r.truth ≡ not (is_empty r.missing_reads && is_empty r.ambiguous_reads))
        × ((y : String) → contains r.effective_dependencies y ≡ true → contains effective y ≡ true)
  ground_reads snapshot effective stored ids h =
      let run = ground-Run digest s rule_id bindings snapshot_id context_id r h in
      let same : run.snapshot ≡ snapshot = ok_injective (sym run.stored ∙ stored) in
      let ids' = subst (λ z. effective_record_ids s z.id ≡ ok effective) (sym same) ids in
      let (condition, evaluated) = run.evaluated in
      let (known, traced) =
        expr-Accounts s run.bound run.snapshot run.context.visible_scopes effective ids'
          (suc (depth run.rule.payload)) condition new_state run.outcome evaluated in
      let (evidence, e, result) =
        sealed_evidence digest s rule_id bindings snapshot_id context_id r
          (pending rule_id snapshot_id context_id run.rule run.bound run.outcome run.conclusion)
          run.structure.0 run.sealed in
      subst (IsAccounted effective) (sym result) (
        not-swap (certain run.outcome.state) (is_unknown run.outcome.truth) known,
        λ y m. elim (traced y m) [ inl old ↦ absurd_contains y old | inr new ↦ new ],
      )

  pub ground_evidence :
      ground digest s rule_id bindings snapshot_id context_id ≡ ok r
      → validate_grounding_evidence digest r (keys r.bindings) ≡ ok tt
  ground_evidence h =
      let run = ground-Run digest s rule_id bindings snapshot_id context_id r h in
      let p =
        pending rule_id snapshot_id context_id run.rule run.bound run.outcome run.conclusion in
      let (evidence, e, result) =
        sealed_evidence digest s rule_id bindings snapshot_id context_id r p run.structure.0
          run.sealed in
      subst (λ z. validate_grounding_evidence digest z (keys z.bindings) ≡ ok tt) (sym result)
        (subst
          (λ l.
            validate_grounding_evidence digest (record p { grounding_evidence = evidence }) l
            ≡ ok tt)
          (sym (bindings-order digest p run.structure.0 evidence e))
          (resealed digest p run.structure.0 evidence e))
