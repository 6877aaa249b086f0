-- ===== src/Problem/Optimality.antt =====
-- What `_select_m1` returns, on every branch.
use atlas_py.Prelude.{
  String, ◌≡◌, refl, ◌↔◌, inl, inr, Bool, true, false, none, some, List, [], ◌∷◌, arith, contains,
  distinct, distinct-map-keep, Bool-cases,
}
use atlas_py.Prelude.Dict.{Dict, get, keys, values}
use atlas_py.Prelude.Int.{ℤ, leb_ℤ, occurs, minimum, minimum-all_above, minimum-occurs}
use atlas_py.Errors.{ok}
use atlas_py.Problem.{
  GroundedCandidate, GroundedDecisionProblem, candidate_ids, check_problem, resolved,
  needs_information, no_admissible_candidate, M1SelectionResult, check_selection,
}
use atlas_py.Problem.Select.{
  in_scope, scoped_candidates, has_unknown, check_candidates, co_optimal, select_result,
  new_selection, choose, select_m1,
}
use atlas_py.Problem.Costs.{
  costs, prices-costs, distinct-keys-costs, get-all_above, contains-co_optimal_iff,
  distinct-co_optimal, co_optimal_inhabited,
}

-- The optimum is a cost, no cost is below it, and the co-optima are the candidates that have it.
pub record IsOptimal (ps : Dict ℤ) (optimum : ℤ) (co_optima : List String) : Type 0 where
  pub attained : occurs optimum (values ps) ≡ true
  pub least : (a : String) (v : ℤ) → get ps a ≡ some v → leb_ℤ optimum v ≡ true
  pub exact : (a : String) → (contains co_optima a ≡ true) ↔ (get ps a ≡ some optimum)

-- The three outcomes, each with the candidates that lead to it.
pub data Selects (id : String) (cs : List GroundedCandidate) (r : M1SelectionResult) : Type 0 where
  uninformed :
      has_unknown cs ≡ true → r ≡ select_result id needs_information none [] → Selects id cs r
  inadmissible :
      has_unknown cs ≡ false
      → costs cs ≡ []
      → r ≡ select_result id no_admissible_candidate none []
      → Selects id cs r
  optimal :
      (optimum : ℤ) (co_optima : List String)
      → has_unknown cs ≡ false
      → r ≡ select_result id resolved (some optimum) co_optima
      → IsOptimal (costs cs) optimum co_optima
      → Selects id cs r

-- The cost that `min` returns.
abbrev pub lowest : String × ℤ → Dict ℤ → ℤ
lowest p ps = minimum p.1 (values ps)

IsOptimal-co_optimal :
    (p : String × ℤ) (ps : Dict ℤ)
    → distinct (keys (p ∷ ps)) ≡ true
    → IsOptimal (p ∷ ps) (lowest p ps) (co_optimal (lowest p ps) (p ∷ ps))
IsOptimal-co_optimal p ps h = record {
  attained = minimum-occurs p.1 (values ps);
  least = λ a v. get-all_above (lowest p ps) (p ∷ ps) a v (minimum-all_above p.1 (values ps));
  exact = λ a. contains-co_optimal_iff (lowest p ps) (p ∷ ps) a h;
}

pub choose-cons :
    (id : String) (p : String × ℤ) (ps : Dict ℤ)
    → distinct (keys (p ∷ ps)) ≡ true
    → choose id (p ∷ ps)
      ≡ ok (select_result id resolved (some (lowest p ps)) (co_optimal (lowest p ps) (p ∷ ps)))
unfolding choose new_selection check_selection
choose-cons id p ps h = ground (
  arith,
  distinct-co_optimal (lowest p ps) (p ∷ ps) h,
  co_optimal_inhabited (lowest p ps) (p ∷ ps) (minimum-occurs p.1 (values ps)),
)

Selects-of_costs :
    (id : String) (cs : List GroundedCandidate) (ps : Dict ℤ)
    → has_unknown cs ≡ false
    → costs cs ≡ ps
    → distinct (keys ps) ≡ true
    → (r : M1SelectionResult) × (choose id ps ≡ ok r) × Selects id cs r
unfolding choose new_selection check_selection distinct
Selects-of_costs id cs [] u e h =
    (select_result id no_admissible_candidate none [], ground arith, Selects.inadmissible u e refl)
Selects-of_costs id cs (p ∷ ps) u e h = (
  select_result id resolved (some (lowest p ps)) (co_optimal (lowest p ps) (p ∷ ps)),
  choose-cons id p ps h,
  Selects.optimal (lowest p ps) (co_optimal (lowest p ps) (p ∷ ps)) u refl
      (rw e (IsOptimal-co_optimal p ps h)),
)

pub distinct-scoped_candidates :
    (current : Bool) (p : GroundedDecisionProblem)
    → check_problem p ≡ ok tt
    → distinct (candidate_ids (scoped_candidates current p)) ≡ true
unfolding check_problem scoped_candidates
distinct-scoped_candidates current p h =
    distinct-map-keep (in_scope current) (λ c. c.candidate) p.candidates (ground arith)

pub new_selection-unresolved :
    (id : String)
    → new_selection id needs_information none [] ≡ ok (select_result id needs_information none [])
unfolding new_selection check_selection distinct
new_selection-unresolved id = refl

-- If the candidates of a well-formed problem that are in scope pass the local checks, `_select_m1`
-- returns: "needs information" if one of them is UNKNOWN, else "no admissible candidate" if none of
-- them is TRUE, else the least cost of the TRUE ones with exactly the candidates that have it.
pub select_m1-Selects :
    (id : String) (p : GroundedDecisionProblem) (current : Bool)
    → check_problem p ≡ ok tt
    → check_candidates p.objective (scoped_candidates current p) ≡ ok tt
    → (r : M1SelectionResult) × (select_m1 id p current ≡ ok r)
      × Selects id (scoped_candidates current p) r
unfolding select_m1
select_m1-Selects id p current wf checked =
    let cs = scoped_candidates current p in
    elim (Bool-cases (has_unknown cs)) [
      | inl u ↦ (
        select_result id needs_information none [],
        rw (checked, u) (new_selection-unresolved id),
        Selects.uninformed u refl,
      )
      | inr u ↦
          let (r, chosen, selects) =
            Selects-of_costs id cs (costs cs) u refl
              (distinct-keys-costs cs (distinct-scoped_candidates current p wf)) in
          (r, rw (checked, u, prices-costs p.objective cs checked) chosen, selects)
    ]
