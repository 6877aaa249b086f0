-- ===== src/Problem/Explain/Checks.antt =====
-- What an explanation says of its decision.
use mathlib.Core.Path.{subst}
use atlas_py.Prelude.{
  String, ◌≡◌, refl, ◌∙◌, Bool, false, some, List, [], ◌∷◌, ◌==◌, map, contains, distinct,
}
use atlas_py.Prelude.Dict.{get}
use atlas_py.Prelude.Int.{ℤ, pos, leb_ℤ}
use atlas_py.Errors.{ok, validation_error, grounding_error, require, >>=-eq-ok, >>-eq-ok}
use atlas_py.Graph.Walk.{ok_injective}
use atlas_py.Problem.{GroundedCandidate, GroundedDecisionProblem, resolved, Decision, candidate_ids}
use atlas_py.Problem.Persisted.{validate_persisted_decision}
use atlas_py.Problem.Explain.{
  CandidateExplanation, DecisionExplanation, check_candidate_explanation,
  check_decision_explanation, check_status, check_optimum, explanation_closure, closure_sources,
  reason_for, explain_candidate, explain_candidates, checked_candidate, checked_decision,
  explain_m1,
}
use atlas_py.Store.{Store}

-- The explanation names the candidate, and selects it exactly if the decision does.
abbrev Describes : Decision → GroundedCandidate → CandidateExplanation → Type 0
Describes d c e = (e.candidate ≡ c.candidate) × (e.selected ≡ contains d.co_optima c.candidate)

explain_candidate-Describes :
    (s : Store) (current : Bool) (d : Decision) (c : GroundedCandidate) (e : CandidateExplanation)
    → explain_candidate s current d c ≡ ok e
    → Describes d c e
unfolding explain_candidate checked_candidate
explain_candidate-Describes s current d c e h =
    let (closure, e1, h1) = >>=-eq-ok (explanation_closure s c) _ h in
    let (sources, e2, h2) = >>=-eq-ok (closure_sources s closure) _ h1 in
    let (reason, e3, h3) = >>=-eq-ok (reason_for current d c) _ h2 in
    let (checked, h4) = >>-eq-ok (check_candidate_explanation _) h3 in
    subst (Describes d c) (ok_injective h4) (refl, refl)

-- The candidates are explained in their order, each selected exactly if the decision selects it.
abbrev pub Reports : Decision → List GroundedCandidate → List CandidateExplanation → Type 0
Reports d cs es =
    (map (λ e. e.candidate) es ≡ candidate_ids cs)
    × (map (λ e. e.selected) es ≡ map (λ c. contains d.co_optima c.candidate) cs)

explain_candidates-Reports :
    (s : Store) (current : Bool) (d : Decision) (cs : List GroundedCandidate)
    (es : List CandidateExplanation)
    → explain_candidates s current d cs ≡ ok es
    → Reports d cs es
unfolding explain_candidates
explain_candidates-Reports s current d [] es h = subst (Reports d []) (ok_injective h) (refl, refl)
explain_candidates-Reports s current d (c ∷ cs) es h =
    let (e, e1, h1) = >>=-eq-ok (explain_candidate s current d c) _ h in
    let (rest, e2, h2) = >>=-eq-ok (explain_candidates s current d cs) _ h1 in
    let (named, chosen) = explain_candidate-Describes s current d c e e1 in
    let (names, choices) = explain_candidates-Reports s current d cs rest e2 in
    subst (Reports d (c ∷ cs)) (ok_injective h2) (cc, cc)

-- The outcome of the decision is passed on, and passes the check of the explanation.
abbrev Passes : Decision → DecisionExplanation → Type 0
Passes d e =
    (e.status ≡ d.status) × (e.optimum ≡ d.optimum) × (check_decision_explanation e ≡ ok tt)

explain_m1-parts :
    (s : Store) (ident : String) (d : Decision) (current : Bool) (e : DecisionExplanation)
    (p : GroundedDecisionProblem)
    → get s.grounded_decision_problems d.source ≡ some p
    → explain_m1 s ident d current ≡ ok e
    → Passes d e × Reports d p.candidates e.candidates
unfolding explain_m1 checked_decision
explain_m1-parts s ident d current e p found h =
    let (named, h1) =
      >>-eq-ok
        (require (d.id == ident)
          (grounding_error "decision explanation requires its exact historical GDP"))
        (rw (found, explain_m1) at h) in
    let (valid, h2) = >>-eq-ok (validate_persisted_decision s d (some current)) h1 in
    let (es, e3, h3) = >>=-eq-ok (explain_candidates s current d p.candidates) _ h2 in
    let (checked, h4) = >>-eq-ok (check_decision_explanation _) h3 in
    subst (λ z. Passes d z × Reports d p.candidates z.candidates) (ok_injective h4)
      ((refl, refl, checked), explain_candidates-Reports s current d p.candidates es e3)

-- An explanation that `_explain_m1` returns has the status and the optimum of its decision, and
-- lists the candidates of the decision's problem in their order, each selected exactly if it is one
-- of the decision's co-optima.
pub explain_m1-Reports :
    (s : Store) (ident : String) (d : Decision) (current : Bool) (e : DecisionExplanation)
    (p : GroundedDecisionProblem)
    → get s.grounded_decision_problems d.source ≡ some p
    → explain_m1 s ident d current ≡ ok e
    → (e.status ≡ d.status) × (e.optimum ≡ d.optimum) × Reports d p.candidates e.candidates
explain_m1-Reports s ident d current e p found h =
    let ((status, optimum, checked), reports) = explain_m1-parts s ident d current e p found h in
    (status, optimum, reports)

check_low :
    (e : DecisionExplanation) (v : ℤ)
    → e.status ≡ resolved
    → e.optimum ≡ some v
    → leb_ℤ (pos 1) v ≡ false
    → ¬ (check_decision_explanation e ≡ ok tt)
unfolding check_decision_explanation check_status check_optimum
check_low e v status optimum low h =
    let (apart, h1) =
      >>-eq-ok
        (require (distinct (map (λ c. c.candidate) e.candidates))
          (validation_error "decision explanation contains duplicate candidates"))
        h in
    cc (rw (status, check_status, optimum, check_optimum, low) at h1)

-- Of a decision that is resolved with an optimum below 1, and whose problem is in the store,
-- `_explain_m1` returns no explanation.
pub explain_m1_low :
    (s : Store) (ident : String) (d : Decision) (current : Bool) (e : DecisionExplanation)
    (p : GroundedDecisionProblem) (v : ℤ)
    → get s.grounded_decision_problems d.source ≡ some p
    → d.status ≡ resolved
    → d.optimum ≡ some v
    → leb_ℤ (pos 1) v ≡ false
    → ¬ (explain_m1 s ident d current ≡ ok e)
explain_m1_low s ident d current e p v found status optimum low h =
    let ((status', optimum', checked), reports) = explain_m1-parts s ident d current e p found h in
    check_low e v (status' ∙ status) (optimum' ∙ optimum) low checked
