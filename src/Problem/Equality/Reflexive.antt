-- ===== src/Problem/Equality/Reflexive.antt =====
-- The equality of problems and of what they hold is reflexive.
use atlas_py.Model.Grounding.{
  AmbiguousRead, EvaluationTruth, GroundedConclusion, GroundingResult, GroundingStatus, MissingRead,
  complete_for_declared_scope, fails, holds, incomplete, invalid, truth_eq, unknown,
}
use atlas_py.Model.Knowledge.{ScopeRef, many, one, scope_eq}
use atlas_py.Prelude.{
  Bool, List, Option, String, [], all_of_contains, arith, eq_refl, none, refl, some, true, ◌++◌,
  ◌==◌, ◌∷◌, ◌≡◌,
}
use atlas_py.Prelude.Dict.{Dict, get, keys}
use atlas_py.Prelude.Int.{eq_ℤ_iff}
use atlas_py.Problem.{GroundedCandidate, GroundedDecisionProblem, M1Objective, ObjectiveValue}
use atlas_py.Problem.Equality.{
  ambiguous_eq, candidate_eq, conclusion_eq, grounding_status_eq, missing_eq, objective_eq,
  objective_value_eq, problem_eq, result_eq, same_bindings, same_list, same_option,
}
use atlas_py.Values.{same_texts_refl}

same_list_refl {ℓ} :
    {A : Type ℓ} (eq : A → A → Bool)
    → ((a : A) → eq a a ≡ true)
    → (xs : List A) → same_list eq xs xs ≡ true
unfolding same_list
same_list_refl eq same [] = refl
same_list_refl eq same (x ∷ xs) = ground (arith, same x, same_list_refl eq same xs)

pub same_option_refl {ℓ} :
    {A : Type ℓ} (eq : A → A → Bool)
    → ((a : A) → eq a a ≡ true)
    → (o : Option A) → same_option eq o o ≡ true
unfolding same_option
same_option_refl eq same none = refl
same_option_refl eq same (some a) = same a

pub truth_eq_refl : (t : EvaluationTruth) → truth_eq t t ≡ true
truth_eq_refl holds = refl
truth_eq_refl fails = refl
truth_eq_refl unknown = refl

same_bindings_refl : (d : Dict String) → same_bindings d d ≡ true
unfolding same_bindings
same_bindings_refl d =
    all_of_contains (λ k. same_option ◌==◌ (get d k) (get d k)) (keys d ++ keys d)
      (λ k _. same_option_refl ◌==◌ eq_refl (get d k))

missing_eq_refl : (r : MissingRead) → missing_eq r r ≡ true
unfolding missing_eq
missing_eq_refl r =
    ground
      (arith, eq_refl r.participant, eq_refl r.description, eq_refl r.property, eq_refl r.version)

ambiguous_eq_refl : (r : AmbiguousRead) → ambiguous_eq r r ≡ true
unfolding ambiguous_eq
ambiguous_eq_refl r = ground (
  arith,
  eq_refl r.participant,
  eq_refl r.description,
  eq_refl r.property,
  eq_refl r.version,
  same_texts_refl r.knowledge_ids,
)

scope_eq_refl : (s : ScopeRef) → scope_eq s s ≡ true
unfolding scope_eq
scope_eq_refl (one s) = eq_refl s
scope_eq_refl (many ss) = same_texts_refl ss

conclusion_eq_refl : (c : GroundedConclusion) → conclusion_eq c c ≡ true
unfolding conclusion_eq
conclusion_eq_refl c = ground (
  arith,
  eq_refl c.term.predicate,
  eq_refl c.term.version,
  same_texts_refl c.term.participants,
  eq_refl c.polarity,
  eq_refl c.epistemic_status,
  scope_eq_refl c.scope,
  same_texts_refl c.provenance,
  eq_refl c.rule_id,
  eq_refl c.rule_version,
  same_texts_refl c.dependencies,
)

pub result_eq_refl : (r : GroundingResult) → result_eq r r ≡ true
unfolding result_eq
result_eq_refl r = ground (
  arith,
  eq_refl r.rule_id,
  eq_refl r.rule_version,
  same_bindings_refl r.bindings,
  truth_eq_refl r.truth,
  same_option_refl conclusion_eq conclusion_eq_refl r.conclusion,
  same_texts_refl r.effective_dependencies,
  same_list_refl missing_eq missing_eq_refl r.missing_reads,
  same_list_refl ambiguous_eq ambiguous_eq_refl r.ambiguous_reads,
  eq_refl r.snapshot,
  eq_refl r.context,
  eq_refl r.grounding_evidence,
)

objective_value_eq_refl : (o : ObjectiveValue) → objective_value_eq o o ≡ true
unfolding objective_value_eq
objective_value_eq_refl o = ground (
  arith,
  (eq_ℤ_iff o.value o.value).1 refl,
  eq_refl o.knowledge_id,
  eq_refl o.property,
  eq_refl o.version,
  eq_refl o.epistemic_status,
)

pub objective_eq_refl : (o : M1Objective) → objective_eq o o ≡ true
unfolding objective_eq
objective_eq_refl o =
    ground (
      arith,
      eq_refl o.property,
      eq_refl o.version,
      eq_refl o.direction,
      eq_refl o.epistemic_status,
    )

candidate_eq_refl : (c : GroundedCandidate) → candidate_eq c c ≡ true
unfolding candidate_eq
candidate_eq_refl c = ground (
  arith,
  eq_refl c.candidate,
  truth_eq_refl c.truth,
  result_eq_refl c.grounding_result,
  same_option_refl ◌==◌ eq_refl c.exclusion_reason,
  same_option_refl objective_value_eq objective_value_eq_refl c.objective_value,
)

grounding_status_eq_refl : (st : GroundingStatus) → grounding_status_eq st st ≡ true
unfolding grounding_status_eq
grounding_status_eq_refl complete_for_declared_scope = refl
grounding_status_eq_refl incomplete = refl
grounding_status_eq_refl invalid = refl

pub problem_eq_refl : (p : GroundedDecisionProblem) → problem_eq p p ≡ true
unfolding problem_eq
problem_eq_refl p = ground (
  arith,
  eq_refl p.scope_id,
  eq_refl p.snapshot,
  eq_refl p.context,
  eq_refl p.request,
  eq_refl p.manifest_version,
  eq_refl p.rule_id,
  objective_eq_refl p.objective,
  same_list_refl candidate_eq candidate_eq_refl p.candidates,
  grounding_status_eq_refl p.grounding_status,
)
