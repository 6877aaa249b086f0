-- ===== src/Problem/Build/Pairs.antt =====
-- problem.py: each candidate that the construction makes agrees with its observation, as the
-- validation compares them.
use atlas_py.Problem.Build.{checked_candidate}
use atlas_py.Errors.{
  >>-eq-ok, >>-of_ok, >>=-eq-ok, Check, err, grounding_error, ok, refuse, refuse-of_false, require,
  require-pass, require-true,
}
use atlas_py.Graph.Walk.{ok_injective}
use atlas_py.Model.Grounding.{EvaluationTruth, GroundingResult}
use atlas_py.Model.Scope.{GroundingObservation}
use atlas_py.Prelude.{
  Bool, List, Option, String, [], ap, arith, contains, distinct, eq_refl, false, if◌then◌else◌,
  is_some, none, refl, some, sym, true, ◌==◌, ◌∙◌, ◌∷◌, ◌≡◌,
}
use atlas_py.Prelude.Dict.{Dict, get, get-put_other, get-put_self, put}
use atlas_py.Prelude.Texts.{◌<+>◌}
use atlas_py.Problem.{
  GroundedCandidate, GroundedDecisionProblem, M1Objective, ObjectiveValue, candidate_ids,
  check_candidate,
}
use atlas_py.Problem.Build.{
  Environment, build_candidates, candidate_from, candidate_of, cost_objective, is_priced,
  objective_if, observations_by, uncovered,
}
use atlas_py.Problem.Equality.{same_option}
use atlas_py.Problem.Equality.Reflexive.{result_eq_refl, same_option_refl, truth_eq_refl}
use atlas_py.Problem.Select.{matches_objective}
use atlas_py.Problem.Stored.{check_pair, check_pairs, check_priced, has_result, has_truth}
use atlas_py.Problem.Support.{objective_for_true, validate_support}
use atlas_py.Problem.Support.Agreement.{Every, KeyedAssertions, validate_support_accepts}
use atlas_py.Scope.Validate.{observed_ids}
use atlas_py.Store.{Store}
use mathlib.Core.Path.{subst}

observations_by-absent :
    (os : List GroundingObservation) (d : Dict GroundingObservation) (k : String)
    → contains (observed_ids os) k ≡ false
    → get (observations_by d os) k ≡ get d k
unfolding observations_by contains
observations_by-absent [] d k h = refl
observations_by-absent (o ∷ os) d k h =
    observations_by-absent os (put d o.candidate o) k (ground arith)
    ∙ get-put_other d o.candidate k o (ground arith)

-- Under distinct candidates each observation is found at its own.
pub observations_by_own :
    (os : List GroundingObservation) (d : Dict GroundingObservation)
    → distinct (observed_ids os) ≡ true
    → Every (λ o. get (observations_by d os) o.candidate ≡ some o) os
unfolding observations_by distinct
observations_by_own [] d h = tt
observations_by_own (o ∷ os) d h = (
  observations_by-absent os (put d o.candidate o) o.candidate (ground arith)
      ∙ get-put_self d o.candidate o,
  observations_by_own os (put d o.candidate o) (ground arith),
)

module _ (s : Store) (env : Environment) (keyed : KeyedAssertions s) where
  abbrev objective : M1Objective
  objective = cost_objective env.version

  matches_of_support :
      (candidate : String) (o : ObjectiveValue)
      → validate_support s candidate objective (some o) env.snapshot env.visible env.modern ≡ ok tt
      → matches_objective objective o ≡ true
  unfolding validate_support
  matches_of_support candidate o h =
      let (matches, h1) = >>-eq-ok (require (matches_objective objective o) _) h in
      require-true _ matches

  -- What the second half of the comparison checks.
  abbrev priced_check : GroundedDecisionProblem → GroundedCandidate → Bool → Check
  priced_check p c priced =
      if priced
      then check_priced s env p c c.objective_value
      else refuse (is_some c.objective_value)
          (grounding_error ("non-TRUE candidate has an objective value: " <+> c.candidate))

  priced_accepts :
      (p : GroundedDecisionProblem) (c : GroundedCandidate) (priced : Bool)
      → p.objective ≡ objective
      → objective_if s env c.candidate priced ≡ ok c.objective_value
      → priced_check p c priced ≡ ok tt
  unfolding objective_if check_priced
  priced_accepts p c true same h =
      let (o, found, h1) =
        >>=-eq-ok (objective_for_true s c.candidate env.snapshot env.visible env.version env.modern)
          _ h in
      let valid =
        validate_support_accepts s c.candidate env.snapshot env.visible env.version env.modern o
          keyed found in
      ap (check_priced s env p c) (sym (ok_injective h1))
      ∙ check_priced_some p c o
          (subst (λ z. matches_objective z o ≡ true) (sym same)
            (matches_of_support c.candidate o valid))
          (subst
            (λ z.
              validate_support s c.candidate z (some o) env.snapshot env.visible env.modern ≡ ok tt)
            (sym same) valid)
    where
      check_priced_some :
          (q : GroundedDecisionProblem) (d : GroundedCandidate) (v : ObjectiveValue)
          → matches_objective q.objective v ≡ true
          → validate_support s d.candidate q.objective (some v) env.snapshot env.visible env.modern
            ≡ ok tt
          → check_priced s env q d (some v) ≡ ok tt
      check_priced_some q d v matches valid = require-pass _ matches valid
  priced_accepts p c false same h = refuse-of_false _ (ap is_some (sym (ok_injective h)))

  -- A candidate that the construction makes of an observation.
  pub record MadeOf (c : GroundedCandidate) (candidate : String) (o : GroundingObservation)
      : Type 0 where
    pub named : c.candidate ≡ candidate
    pub truth : o.truth ≡ some c.truth
    pub result : o.grounding_result ≡ some c.grounding_result
    pub excluded : c.exclusion_reason ≡ o.exclusion_reason
    pub priced :
        objective_if s env c.candidate (is_priced env.modern c.truth c.exclusion_reason)
        ≡ ok c.objective_value

  candidate_of-MadeOf :
      (candidate : String) (o : GroundingObservation) (truth : Option EvaluationTruth)
      (r : GroundingResult) (c : GroundedCandidate)
      → o.truth ≡ truth
      → o.grounding_result ≡ some r
      → candidate_of s env candidate o truth r ≡ ok c
      → MadeOf c candidate o
  unfolding candidate_of checked_candidate
  candidate_of-MadeOf candidate o none r c e e' h = cc
  candidate_of-MadeOf candidate o (some truth) r c e e' h =
      let (objective_value, found, h1) =
        >>=-eq-ok (objective_if s env candidate (is_priced env.modern truth o.exclusion_reason)) _
          h in
      let made : GroundedCandidate = record {
        candidate = candidate;
        truth = truth;
        grounding_result = r;
        exclusion_reason = o.exclusion_reason;
        objective_value = objective_value;
      } in
      let (checked, h2) = >>-eq-ok (check_candidate made) h1 in
      subst (λ x. MadeOf x candidate o) (ok_injective h2)
        (record { named = refl; truth = e; result = e'; excluded = refl; priced = found })

  result_case :
      (candidate : String) (o : GroundingObservation) (found : Option GroundingResult)
      (c : GroundedCandidate)
      → o.grounding_result ≡ found
      → (elim found [ none ↦ err uncovered | some r ↦ candidate_of s env candidate o o.truth r ])
        ≡ ok c
      → MadeOf c candidate o
  result_case candidate o none c e h = cc
  result_case candidate o (some r) c e h = candidate_of-MadeOf candidate o o.truth r c refl e h

  pub candidate_from-MadeOf :
      (candidate : String) (o : GroundingObservation) (c : GroundedCandidate)
      → candidate_from s env candidate (some o) ≡ ok c
      → MadeOf c candidate o
  unfolding candidate_from
  candidate_from-MadeOf candidate o c h =
      let (walked, h1) = >>-eq-ok (require o.traversed uncovered) h in
      result_case candidate o o.grounding_result c refl h1

  pair_accepts :
      (p : GroundedDecisionProblem) (c : GroundedCandidate) (candidate : String)
      (o : GroundingObservation)
      → p.objective ≡ objective
      → MadeOf c candidate o
      → check_pair s env p c o ≡ ok tt
  unfolding check_pair has_truth has_result
  pair_accepts p c candidate o same w =
      require-pass _
        (ground (
          arith,
          w.truth,
          w.result,
          truth_eq_refl c.truth,
          result_eq_refl c.grounding_result,
          subst (λ z. same_option ◌==◌ c.exclusion_reason z ≡ true) w.excluded
              (same_option_refl ◌==◌ eq_refl c.exclusion_reason),
        ))
        (priced_accepts p c (is_priced env.modern c.truth c.exclusion_reason) same w.priced)

  pub check_pairs_accepts :
      (p : GroundedDecisionProblem) (d : Dict GroundingObservation) (os : List GroundingObservation)
      (cs : List GroundedCandidate)
      → p.objective ≡ objective
      → Every (λ o. get d o.candidate ≡ some o) os
      → build_candidates s env d (observed_ids os) ≡ ok cs
      → (check_pairs s env p cs os ≡ ok tt) × (candidate_ids cs ≡ observed_ids os)
  unfolding build_candidates check_pairs
  check_pairs_accepts p d [] cs same found h =
      subst (λ z. (check_pairs s env p z [] ≡ ok tt) × (candidate_ids z ≡ [])) (ok_injective h)
        (refl, refl)
  check_pairs_accepts p d (o ∷ os) cs same found h =
      let (c, e, h1) = >>=-eq-ok (candidate_from s env o.candidate (get d o.candidate)) _ h in
      let (rest, e2, h2) = >>=-eq-ok (build_candidates s env d (observed_ids os)) _ h1 in
      let made =
        candidate_from-MadeOf o.candidate o c
          (ap (candidate_from s env o.candidate) (sym found.0) ∙ e) in
      let (others, ids) = check_pairs_accepts p d os rest same found.1 e2 in
      subst
        (λ z.
          (check_pairs s env p z (o ∷ os) ≡ ok tt)
          × (candidate_ids z ≡ o.candidate ∷ observed_ids os))
        (ok_injective h2)
        (
          >>-of_ok (pair_accepts p c o.candidate o same made) others,
          ground (arith, made.named, ids),
        )
