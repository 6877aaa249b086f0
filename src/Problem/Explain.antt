-- ===== src/Problem/Explain.antt =====
-- problem.py: `CandidateExplanation`, `DecisionExplanation` and their checks, and `_explain_m1`.
pub mod Checks
use atlas_py.Prelude.{
  String, Bool, true, false, not, ◌&&◌, ◌||◌, Option, none, some, List, [], ◌∷◌, ◌++◌, ◌==◌,
  is_some, is_none, is_empty, any, keep, map, contains, distinct, suc, length, if◌then◌else◌,
}
use atlas_py.Prelude.Dict.{get, has}
use atlas_py.Prelude.Int.{ℤ, pos, eq_ℤ, leb_ℤ}
use atlas_py.Errors.{
  Check, Result, ok, err, validation_error, grounding_error, attribute_error, require, refuse,
  ◌>>=◌, ◌>>◌,
}
use atlas_py.Values.{nonempty}
use atlas_py.Provenance.{canonical_provenance}
use atlas_py.Graph.{visit_all}
use atlas_py.Model.Knowledge.{KnowledgeRecord, record_provenance, derivation_of}
use atlas_py.Model.Grounding.{
  EvaluationTruth, holds, fails, unknown, is_true, is_false, is_unknown, MissingRead, AmbiguousRead,
  GroundingResult,
}
use atlas_py.Model.Scope.{absent_or_text}
use atlas_py.Problem.{
  ObjectiveValue, GroundedCandidate, GroundedDecisionProblem, SelectionStatus, resolved,
  needs_information, no_admissible_candidate, Decision,
}
use atlas_py.Problem.Persisted.{validate_persisted_decision}
use atlas_py.Store.{Store, subscript}
use atlas_py.Store.Dependencies.{direct_dependencies}

pub data ExplanationReason : Type 0 where
  selected_co_optimum admissible_higher_objective not_admissible : ExplanationReason
  insufficient_information admissible_but_optimality_uncertified : ExplanationReason

-- reason is SELECTED_CO_OPTIMUM, and so on
abbrev pub is_co_optimum : ExplanationReason → Bool
is_co_optimum selected_co_optimum = true
is_co_optimum _ = false

abbrev pub is_higher : ExplanationReason → Bool
is_higher admissible_higher_objective = true
is_higher _ = false

abbrev pub is_uncertified : ExplanationReason → Bool
is_uncertified admissible_but_optimality_uncertified = true
is_uncertified _ = false

abbrev pub is_not_admissible : ExplanationReason → Bool
is_not_admissible not_admissible = true
is_not_admissible _ = false

abbrev pub is_insufficient : ExplanationReason → Bool
is_insufficient insufficient_information = true
is_insufficient _ = false

pub record CandidateExplanation : Type 0 where
  pub candidate : String
  pub truth : EvaluationTruth
  pub selected : Bool
  pub objective_value : Option ObjectiveValue
  pub reason : ExplanationReason
  pub effective_dependencies : List String
  pub dependency_closure : List String
  pub missing_reads : List MissingRead
  pub ambiguous_reads : List AmbiguousRead
  pub exclusion_reason : Option String
  pub provenance : List String
  pub grounding_evidence : String
  pub current_scope_semantics : Bool

-- The part of the check for a TRUE candidate, one that is FALSE, and one that is UNKNOWN.
unfoldable pub check_reason : EvaluationTruth → CandidateExplanation → Check
check_reason holds e = do
  require (is_some e.objective_value)
      (validation_error "TRUE candidate explanation requires an objective value")
  require (is_co_optimum e.reason || is_higher e.reason || is_uncertified e.reason)
      (validation_error "TRUE candidate explanation has an invalid reason")
  refuse (e.selected && not (is_co_optimum e.reason))
      (validation_error "selected candidate explanation must be a co-optimum")
  refuse (is_co_optimum e.reason && not e.selected)
      (validation_error "co-optimum candidate explanation must be selected")
  refuse ((is_higher e.reason || is_uncertified e.reason) && e.selected)
      (validation_error "non-optimal candidate explanation must not be selected")
check_reason fails e =
    refuse (e.selected || is_some e.objective_value || not (is_not_admissible e.reason))
      (validation_error "FALSE candidate explanation must be non-admissible and unselected")
check_reason unknown e =
    refuse (e.selected || is_some e.objective_value || not (is_insufficient e.reason))
      (validation_error "UNKNOWN candidate explanation must be information-limited and unselected")

unfoldable pub check_candidate_explanation : CandidateExplanation → Check
check_candidate_explanation e = do
  require (absent_or_text e.exclusion_reason)
      (validation_error "invalid candidate explanation exclusion reason")
  require (nonempty e.grounding_evidence)
      (validation_error "candidate explanation requires grounding evidence")
  (if e.current_scope_semantics && is_some e.exclusion_reason
      then refuse (e.selected || is_some e.objective_value || not (is_not_admissible e.reason))
          (validation_error "scope-excluded candidate explanation must be non-admissible")
      else check_reason e.truth e)

pub record DecisionExplanation : Type 0 where
  pub source : String
  pub decision_problem : String
  pub status : SelectionStatus
  pub optimum : Option ℤ
  pub candidates : List CandidateExplanation
  pub current_scope_semantics : Bool

-- not self.current_scope_semantics or candidate.exclusion_reason is None
abbrev pub counts : Bool → CandidateExplanation → Bool
counts current e = not current || is_none e.exclusion_reason

abbrev pub selected_of : List CandidateExplanation → List CandidateExplanation
selected_of es = keep (λ e. e.selected) es

-- for e in es: check(e)
unfoldable pub check_each : (CandidateExplanation → Check) → List CandidateExplanation → Check
check_each check [] = ok tt
check_each check (e ∷ es) = do check e; check_each check es

unfoldable pub check_selected : ℤ → CandidateExplanation → Check
check_selected optimum e = do
  require (is_true e.truth && is_co_optimum e.reason)
      (validation_error "resolved explanation has an invalid selected candidate")
  elim e.objective_value [
    | none ↦ err (attribute_error "'NoneType' object has no attribute 'value'")
    | some v ↦
        require (eq_ℤ v.value optimum)
          (validation_error "resolved explanation has an invalid selected candidate")
  ]

-- The cost is there and above the optimum.
abbrev pub costs_more : ℤ → Option ObjectiveValue → Bool
costs_more optimum none = false
costs_more optimum (some v) = not (leb_ℤ v.value optimum)

unfoldable pub check_resolved_candidate : Bool → ℤ → CandidateExplanation → Check
check_resolved_candidate current optimum e = do
  refuse (not e.selected && is_co_optimum e.reason)
      (validation_error "resolved explanation has an unselected co-optimum")
  refuse (is_unknown e.truth && counts current e)
      (validation_error "resolved explanation must not contain UNKNOWN candidates")
  refuse
      (not e.selected
        && is_true e.truth
        && counts current e
        && not (costs_more optimum e.objective_value && is_higher e.reason))
      (validation_error "resolved explanation has an invalid admissible candidate")

unfoldable pub check_optimum : Bool → List CandidateExplanation → Option ℤ → Check
check_optimum current es none =
    err (validation_error "resolved explanation requires an optimum and a selected candidate")
check_optimum current es (some optimum) = do
  require (leb_ℤ (pos 1) optimum && not (is_empty (selected_of es)))
      (validation_error "resolved explanation requires an optimum and a selected candidate")
  check_each (check_selected optimum) (selected_of es)
  check_each (check_resolved_candidate current optimum) es

unfoldable pub check_uninformed : Bool → CandidateExplanation → Check
check_uninformed current e = do
  refuse (is_true e.truth && counts current e && not (is_uncertified e.reason))
      (validation_error "information-limited explanation has a certified admissible reason")
  refuse (is_false e.truth && not (is_not_admissible e.reason))
      (validation_error "information-limited explanation has an invalid inadmissible reason")
  refuse (is_unknown e.truth && counts current e && not (is_insufficient e.reason))
      (validation_error "information-limited explanation has an invalid unknown reason")

unfoldable pub check_status : SelectionStatus → Bool → Option ℤ → List CandidateExplanation → Check
check_status resolved current optimum es = check_optimum current es optimum
check_status needs_information current optimum es = do
  refuse
      (is_some optimum || not (is_empty (selected_of es)) || not (any (λ e. is_unknown e.truth) es))
      (validation_error "information-limited explanation has an invalid outcome")
  check_each (check_uninformed current) es
check_status no_admissible_candidate current optimum es = do
  refuse
      (is_some optimum
        || not (is_empty (selected_of es))
        || any (λ e. not (is_false e.truth) && counts current e) es)
      (validation_error "no-candidate explanation has an invalid outcome")
  refuse (any (λ e. not (is_not_admissible e.reason)) es)
      (validation_error "no-candidate explanation has an invalid candidate reason")

unfoldable pub check_decision_explanation : DecisionExplanation → Check
check_decision_explanation d = do
  require (distinct (map (λ e. e.candidate) d.candidates))
      (validation_error "decision explanation contains duplicate candidates")
  check_status d.status d.current_scope_semantics d.optimum d.candidates

-- What `visit` asks of a dependency, and where it goes on.
unfoldable pub explanation_step : Store → String → Result (List String)
explanation_step s ident = elim (get s.records ident) [
  | none ↦ err (grounding_error "explanation references an absent historical dependency")
  | some found ↦ do
    refuse (is_some (derivation_of found) && not (has s.derivations ident))
        (grounding_error "explanation references an incomplete historical derivation")
    direct_dependencies s ident
]

-- dependencies_for
unfoldable pub explanation_closure : Store → GroundedCandidate → Result (List String)
explanation_closure s c =
    visit_all (explanation_step s) (suc (length s.derivations))
      c.grounding_result.effective_dependencies

unfoldable pub reason_by_status : Decision → GroundedCandidate → Result ExplanationReason
reason_by_status d c = elim d.status [
  | resolved ↦ ok (
      if contains d.co_optima c.candidate then selected_co_optimum else admissible_higher_objective)
  | needs_information ↦ elim c.truth [
    | holds ↦ ok admissible_but_optimality_uncertified
    | unknown ↦ ok insufficient_information
    | fails ↦ err (grounding_error "decision explanation status disagrees with historical GDP")
  ]
  | no_admissible_candidate ↦
      err (grounding_error "decision explanation status disagrees with historical GDP")
]

unfoldable pub reason_for : Bool → Decision → GroundedCandidate → Result ExplanationReason
reason_for current d c =
    if (current && is_some c.exclusion_reason) || is_false c.truth
    then ok not_admissible
    else reason_by_status d c

-- The provenance of the closure's records, in turn.
unfoldable pub closure_sources : Store → List String → Result (List String)
closure_sources s [] = ok []
closure_sources s (x ∷ xs) = do
  found ← subscript s.records x
  rest ← closure_sources s xs
  ok (record_provenance found ++ rest)

unfoldable pub checked_candidate : CandidateExplanation → Result CandidateExplanation
checked_candidate e = do check_candidate_explanation e; ok e

unfoldable pub explain_candidate :
    Store → Bool → Decision → GroundedCandidate → Result CandidateExplanation
explain_candidate s current d c = do
  closure ← explanation_closure s c
  sources ← closure_sources s closure
  reason ← reason_for current d c
  checked_candidate (record {
    candidate = c.candidate;
    truth = c.truth;
    selected = contains d.co_optima c.candidate;
    objective_value = c.objective_value;
    reason = reason;
    effective_dependencies = c.grounding_result.effective_dependencies;
    dependency_closure = closure;
    missing_reads = c.grounding_result.missing_reads;
    ambiguous_reads = c.grounding_result.ambiguous_reads;
    exclusion_reason = c.exclusion_reason;
    provenance = canonical_provenance sources;
    grounding_evidence = c.grounding_result.grounding_evidence;
    current_scope_semantics = current;
  })

unfoldable pub explain_candidates :
    Store → Bool → Decision → List GroundedCandidate → Result (List CandidateExplanation)
explain_candidates s current d [] = ok []
explain_candidates s current d (c ∷ cs) = do
  e ← explain_candidate s current d c
  es ← explain_candidates s current d cs
  ok (e ∷ es)

unfoldable pub checked_decision : DecisionExplanation → Result DecisionExplanation
checked_decision e = do check_decision_explanation e; ok e

-- _explain_m1, for the problem that the store has under the decision's source
unfoldable pub explain_m1 : Store → String → Decision → Bool → Result DecisionExplanation
explain_m1 s decision_id d current = elim (get s.grounded_decision_problems d.source) [
  | none ↦ err (grounding_error "decision explanation requires its exact historical GDP")
  | some p ↦ do
    require (d.id == decision_id)
        (grounding_error "decision explanation requires its exact historical GDP")
    validate_persisted_decision s d (some current)
    candidates ← explain_candidates s current d p.candidates
    checked_decision (record {
      source = d.id;
      decision_problem = d.source;
      status = d.status;
      optimum = d.optimum;
      candidates = candidates;
      current_scope_semantics = current;
    })
]
