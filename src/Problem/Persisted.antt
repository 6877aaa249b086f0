-- ===== src/Problem/Persisted.antt =====
-- problem.py: `validate_persisted_decision`, with the lookup of its problem in the store.
use atlas_py.Prelude.{Bool, Option, false, none, some}
use atlas_py.Prelude.Dict.{get}
use atlas_py.Errors.{Check, err, grounding_error}
use atlas_py.Model.Scope.{DecisionGrounding, is_current}
use atlas_py.Problem.{GroundedDecisionProblem, Decision}
use atlas_py.Problem.Validate.{validate_outcome}
use atlas_py.Store.{Store}

-- Which candidates were in scope, for a decision whose caller does not say: those that the current
-- form of the grounding does not exclude.
unfoldable pub scope_semantics : Option Bool → Option DecisionGrounding → Bool
scope_semantics (some given) grounding = given
scope_semantics none none = false
scope_semantics none (some g) = is_current g.schema

unfoldable pub validate_against :
    Store → Option Bool → Decision → Option GroundedDecisionProblem → Check
validate_against s semantics d none =
    err (grounding_error "decision references an invalid source grounded decision problem")
validate_against s semantics d (some p) =
    validate_outcome (scope_semantics semantics (get s.decision_groundings p.scope_id)) p d

unfoldable pub validate_persisted_decision : Store → Decision → Option Bool → Check
validate_persisted_decision s d semantics =
    validate_against s semantics d (get s.grounded_decision_problems d.source)
