-- ===== src/Problem/Costs.antt =====
-- The costs that the selection of problem.py ranks, as a plain recursion over the candidates, and
-- the lemmas on ranked lists that its correctness rests on.
use atlas_py.Prelude.{
  String, ◌≡◌, refl, ◌↔◌, true, false, Option, some, List, [], ◌∷◌, arith, eq_iff, keep, contains,
  distinct, contains-map-keep_of, distinct-map-keep, is_empty,
}
use atlas_py.Prelude.Dict.{Dict, get, keys, values}
use atlas_py.Prelude.Int.{ℤ, eq_ℤ, eq_ℤ_iff, leb_ℤ, all_above, occurs}
use atlas_py.Errors.{ok}
use atlas_py.Model.Grounding.{EvaluationTruth, holds}
use atlas_py.Problem.{ObjectiveValue, M1Objective, GroundedCandidate, candidate_ids}
use atlas_py.Problem.Select.{true_candidates, check_candidates, prices, co_optimal}

abbrev pub with_cost : EvaluationTruth → Option ObjectiveValue → String → Dict ℤ → Dict ℤ
with_cost holds (some v) a rest = (a, v.value) ∷ rest
with_cost _ _ a rest = rest

-- The cost of each TRUE candidate, by its identity.
unfoldable pub costs : List GroundedCandidate → Dict ℤ
costs [] = []
costs (c ∷ cs) = with_cost c.truth c.objective_value c.candidate (costs cs)

-- Candidates that pass the checks have all the prices that the selection asks for.
pub prices-costs :
    (o : M1Objective) (cs : List GroundedCandidate)
    → check_candidates o cs ≡ ok tt
    → prices (true_candidates cs) ≡ ok (costs cs)
unfolding prices true_candidates costs check_candidates keep
prices-costs o [] h = refl
prices-costs o (c ∷ cs) h = ground (arith, prices-costs o cs)

pub is_empty-true_candidates :
    (o : M1Objective) (cs : List GroundedCandidate)
    → check_candidates o cs ≡ ok tt
    → is_empty (true_candidates cs) ≡ is_empty (costs cs)
unfolding true_candidates costs check_candidates keep
is_empty-true_candidates o [] h = refl
is_empty-true_candidates o (c ∷ cs) h = ground (arith, is_empty-true_candidates o cs)

contains-keys-costs :
    (cs : List GroundedCandidate) (a : String)
    → contains (keys (costs cs)) a ≡ true
    → contains (candidate_ids cs) a ≡ true
unfolding costs contains
contains-keys-costs [] a h = h
contains-keys-costs (c ∷ cs) a h = ground (arith, contains-keys-costs cs a)

pub distinct-keys-costs :
    (cs : List GroundedCandidate)
    → distinct (candidate_ids cs) ≡ true
    → distinct (keys (costs cs)) ≡ true
unfolding costs distinct
distinct-keys-costs [] h = refl
distinct-keys-costs (c ∷ cs) h =
    ground (arith, distinct-keys-costs cs, contains-keys-costs cs c.candidate)

pub get-all_above :
    (b : ℤ) (ps : Dict ℤ) (a : String) (v : ℤ)
    → all_above b (values ps) ≡ true
    → get ps a ≡ some v
    → leb_ℤ b v ≡ true
unfolding get all_above
get-all_above b [] a v h e = cc
get-all_above b ((k, w) ∷ ps) a v h e = ground (arith, get-all_above b ps a v)

contains-get : (ps : Dict ℤ) (a : String) (v : ℤ) → get ps a ≡ some v → contains (keys ps) a ≡ true
unfolding get contains
contains-get [] a v h = cc
contains-get ((k, w) ∷ ps) a v h = ground (arith, contains-get ps a v)

co_optimal-keys :
    (m : ℤ) (ps : Dict ℤ) (a : String)
    → contains (co_optimal m ps) a ≡ true
    → contains (keys ps) a ≡ true
unfolding co_optimal
co_optimal-keys m ps a h = contains-map-keep_of (λ p. eq_ℤ p.1 m) (λ p. p.0) ps a h

-- The co-optima are exactly the identities whose cost is the optimum.
pub contains-co_optimal_iff :
    (m : ℤ) (ps : Dict ℤ) (a : String)
    → distinct (keys ps) ≡ true
    → (contains (co_optimal m ps) a ≡ true) ↔ (get ps a ≡ some m)
unfolding co_optimal get contains distinct keep
contains-co_optimal_iff m [] a h = (λ e. cc, λ e. cc)
contains-co_optimal_iff m ((k, w) ∷ ps) a h = ground (
  arith,
  contains-co_optimal_iff m ps a,
  co_optimal-keys m ps a,
  contains-get ps a m,
  eq_iff k a,
  eq_ℤ_iff w m,
)

pub distinct-co_optimal :
    (m : ℤ) (ps : Dict ℤ) → distinct (keys ps) ≡ true → distinct (co_optimal m ps) ≡ true
unfolding co_optimal
distinct-co_optimal m ps h = distinct-map-keep (λ p. eq_ℤ p.1 m) (λ p. p.0) ps h

-- Where the optimum occurs among the costs, some candidate has it.
pub co_optimal_inhabited :
    (m : ℤ) (ps : Dict ℤ) → occurs m (values ps) ≡ true → is_empty (co_optimal m ps) ≡ false
unfolding co_optimal occurs keep
co_optimal_inhabited m [] h = cc
co_optimal_inhabited m ((k, w) ∷ ps) h = ground (arith, co_optimal_inhabited m ps)
