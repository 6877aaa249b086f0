-- ===== src/Witnesses/Explained.antt =====
-- The explanations of two decisions of a store that holds their problem.
use atlas_py.Prelude.{String, ◌≡◌, refl, Bool, true, false, Option, none, some, List, [], ◌∷◌}
use atlas_py.Prelude.Int.{ℤ, pos, negsuc}
use atlas_py.Errors.{ok}
use atlas_py.Model.Grounding.{fails}
use atlas_py.Problem.{
  GroundedCandidate, GroundedDecisionProblem, SelectionStatus, resolved, Decision, ObjectiveValue,
}
use atlas_py.Problem.Explain.{
  ExplanationReason, selected_co_optimum, admissible_higher_objective, not_admissible,
  CandidateExplanation, DecisionExplanation, explain_m1,
}
use atlas_py.Problem.Explain.Checks.{Reports, explain_m1-Reports, explain_m1_low}
use atlas_py.Store.{Store}
use atlas_py.Witnesses.Selection.{priced, unpriced, offers, chosen}
use atlas_py.Witnesses.Shop.{shop}

abbrev archive : Store
archive = record (shop []) { grounded_decision_problems = ("p", offers) ∷ [] }

abbrev explained : GroundedCandidate → Bool → ExplanationReason → CandidateExplanation
explained c selected reason = record {
  candidate = c.candidate;
  truth = c.truth;
  selected = selected;
  objective_value = c.objective_value;
  reason = reason;
  effective_dependencies = [];
  dependency_closure = [];
  missing_reads = [];
  ambiguous_reads = [];
  exclusion_reason = none;
  provenance = [];
  grounding_evidence = "e";
  current_scope_semantics = true;
}

abbrev explanation : DecisionExplanation
explanation = record {
  source = "d1";
  decision_problem = "p";
  status = resolved;
  optimum = some (pos 4);
  candidates =
      explained (priced "a" (pos 7)) false admissible_higher_objective
      ∷ explained (priced "b" (pos 4)) true selected_co_optimum
      ∷ explained (unpriced "c" fails) false not_admissible
      ∷ explained (priced "d" (pos 4)) true selected_co_optimum
      ∷ [];
  current_scope_semantics = true;
}

explains_chosen : explain_m1 archive "d1" chosen true ≡ ok explanation
unfolding explain_m1 atlas_py.Problem.Explain.explain_candidates
    atlas_py.Problem.Explain.explain_candidate atlas_py.Problem.Explain.explanation_closure
    atlas_py.Problem.Explain.explanation_step atlas_py.Problem.Explain.closure_sources
    atlas_py.Problem.Explain.reason_for atlas_py.Problem.Explain.reason_by_status
    atlas_py.Problem.Explain.checked_candidate atlas_py.Problem.Explain.check_candidate_explanation
    atlas_py.Problem.Explain.check_reason atlas_py.Problem.Explain.checked_decision
    atlas_py.Problem.Explain.check_decision_explanation atlas_py.Problem.Explain.check_status
    atlas_py.Problem.Explain.check_optimum atlas_py.Problem.Explain.check_each
    atlas_py.Problem.Explain.check_selected atlas_py.Problem.Explain.check_resolved_candidate
    atlas_py.Problem.Explain.check_uninformed atlas_py.Problem.Persisted.validate_persisted_decision
    atlas_py.Problem.Persisted.validate_against atlas_py.Problem.Persisted.scope_semantics
    atlas_py.Problem.Validate.validate_outcome atlas_py.Problem.Validate.validate_known
    atlas_py.Problem.Validate.check_unresolved atlas_py.Problem.Validate.check_resolved
    atlas_py.Problem.Validate.check_costs atlas_py.Problem.Validate.from_pairs
    atlas_py.Problem.Validate.same_set atlas_py.Problem.Select.scoped_candidates
    atlas_py.Problem.Select.true_candidates atlas_py.Problem.Select.has_unknown
    atlas_py.Problem.Select.prices atlas_py.Problem.Select.price atlas_py.Problem.Select.co_optimal
    atlas_py.Prelude.Dict.get atlas_py.Prelude.Dict.put atlas_py.Prelude.keep atlas_py.Prelude.any
    atlas_py.Prelude.all atlas_py.Prelude.contains atlas_py.Prelude.distinct atlas_py.Prelude.subset
    atlas_py.Prelude.Int.minimum atlas_py.Provenance.canonical_provenance
    atlas_py.Prelude.Order.sorted_set atlas_py.Prelude.Order.insert_sorted atlas_py.Graph.each
    atlas_py.Graph.visit atlas_py.Graph.visit_all atlas_py.Store.subscript atlas_py.Store.check_open
    atlas_py.Store.Dependencies.direct_dependencies
explains_chosen = refl

explain_m1-Reports_example :
    (explanation.status ≡ chosen.status)
    × (explanation.optimum ≡ chosen.optimum)
    × Reports chosen offers.candidates explanation.candidates
unfolding atlas_py.Prelude.Dict.get
explain_m1-Reports_example =
    explain_m1-Reports archive "d1" chosen true explanation offers refl explains_chosen

abbrev refund : Decision
refund = record {
  id = "d2";
  source = "p";
  status = resolved;
  optimum = some (negsuc 2);
  co_optima = "a" ∷ [];
}

explain_m1_low_example : ¬ (explain_m1 archive "d2" refund true ≡ ok explanation)
unfolding atlas_py.Prelude.Dict.get
explain_m1_low_example =
    explain_m1_low archive "d2" refund true explanation offers (negsuc 2) refl refl refl refl
