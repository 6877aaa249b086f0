-- ===== src/Problem/Equality.antt =====
-- problem.py and model.py: `==` on grounding results and on problems, as their dataclasses have it:
-- field by field, bindings as dictionaries.
pub mod Reflexive
use atlas_py.Model.Grounding.{
  AmbiguousRead, GroundedConclusion, GroundingResult, GroundingStatus, MissingRead,
  complete_for_declared_scope, incomplete, invalid, truth_eq,
}
use atlas_py.Model.Knowledge.{scope_eq}
use atlas_py.Prelude.{
  Bool, List, Option, String, [], all, false, none, some, true, ◌&&◌, ◌++◌, ◌==◌, ◌∷◌,
}
use atlas_py.Prelude.Dict.{Dict, get, keys}
use atlas_py.Prelude.Int.{eq_ℤ}
use atlas_py.Problem.{GroundedCandidate, GroundedDecisionProblem, M1Objective, ObjectiveValue}
use atlas_py.Values.{same_texts}

-- left == right, on tuples
unfoldable pub same_list {ℓ} : {A : Type ℓ} → (A → A → Bool) → List A → List A → Bool
same_list eq [] [] = true
same_list eq (x ∷ xs) (y ∷ ys) = eq x y && same_list eq xs ys
same_list eq _ _ = false

unfoldable pub same_option {ℓ} : {A : Type ℓ} → (A → A → Bool) → Option A → Option A → Bool
same_option eq none none = true
same_option eq (some a) (some b) = eq a b
same_option eq _ _ = false

-- left == right, on dictionaries: the same lookups
unfoldable pub same_bindings : Dict String → Dict String → Bool
same_bindings a b = all (λ k. same_option ◌==◌ (get a k) (get b k)) (keys a ++ keys b)

unfoldable pub missing_eq : MissingRead → MissingRead → Bool
missing_eq a b =
    a.participant == b.participant
    && a.description == b.description
    && a.property == b.property
    && a.version == b.version

unfoldable pub ambiguous_eq : AmbiguousRead → AmbiguousRead → Bool
ambiguous_eq a b =
    a.participant == b.participant
    && a.description == b.description
    && a.property == b.property
    && a.version == b.version
    && same_texts a.knowledge_ids b.knowledge_ids

unfoldable pub conclusion_eq : GroundedConclusion → GroundedConclusion → Bool
conclusion_eq a b =
    a.term.predicate == b.term.predicate
    && a.term.version == b.term.version
    && same_texts a.term.participants b.term.participants
    && a.polarity == b.polarity
    && a.epistemic_status == b.epistemic_status
    && scope_eq a.scope b.scope
    && same_texts a.provenance b.provenance
    && a.rule_id == b.rule_id
    && a.rule_version == b.rule_version
    && same_texts a.dependencies b.dependencies

unfoldable pub result_eq : GroundingResult → GroundingResult → Bool
result_eq a b =
    a.rule_id == b.rule_id
    && a.rule_version == b.rule_version
    && same_bindings a.bindings b.bindings
    && truth_eq a.truth b.truth
    && same_option conclusion_eq a.conclusion b.conclusion
    && same_texts a.effective_dependencies b.effective_dependencies
    && same_list missing_eq a.missing_reads b.missing_reads
    && same_list ambiguous_eq a.ambiguous_reads b.ambiguous_reads
    && a.snapshot == b.snapshot
    && a.context == b.context
    && a.grounding_evidence == b.grounding_evidence

unfoldable pub objective_value_eq : ObjectiveValue → ObjectiveValue → Bool
objective_value_eq a b =
    eq_ℤ a.value b.value
    && a.knowledge_id == b.knowledge_id
    && a.property == b.property
    && a.version == b.version
    && a.epistemic_status == b.epistemic_status

unfoldable pub objective_eq : M1Objective → M1Objective → Bool
objective_eq a b =
    a.property == b.property
    && a.version == b.version
    && a.direction == b.direction
    && a.epistemic_status == b.epistemic_status

unfoldable pub candidate_eq : GroundedCandidate → GroundedCandidate → Bool
candidate_eq a b =
    a.candidate == b.candidate
    && truth_eq a.truth b.truth
    && result_eq a.grounding_result b.grounding_result
    && same_option ◌==◌ a.exclusion_reason b.exclusion_reason
    && same_option objective_value_eq a.objective_value b.objective_value

unfoldable pub grounding_status_eq : GroundingStatus → GroundingStatus → Bool
grounding_status_eq complete_for_declared_scope complete_for_declared_scope = true
grounding_status_eq incomplete incomplete = true
grounding_status_eq invalid invalid = true
grounding_status_eq _ _ = false

unfoldable pub problem_eq : GroundedDecisionProblem → GroundedDecisionProblem → Bool
problem_eq a b =
    a.scope_id == b.scope_id
    && a.snapshot == b.snapshot
    && a.context == b.context
    && a.request == b.request
    && a.manifest_version == b.manifest_version
    && a.rule_id == b.rule_id
    && objective_eq a.objective b.objective
    && same_list candidate_eq a.candidates b.candidates
    && grounding_status_eq a.grounding_status b.grounding_status
