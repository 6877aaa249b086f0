-- ===== src/Problem/Support.antt =====
-- problem.py: the costs that support an objective, at the construction of a problem and at its
-- validation.
pub mod Agreement
use atlas_py.Prelude.{
  String, Bool, false, not, ◌&&◌, Option, none, some, List, [], ◌∷◌, ◌==◌, any, contains, keep,
  if◌then◌else◌,
}
use atlas_py.Prelude.Texts.{◌<+>◌}
use atlas_py.Prelude.Dict.{get, values}
use atlas_py.Prelude.Int.{ℤ, eq_ℤ}
use atlas_py.Errors.{
  Check, Result, ok, err, validation_error, grounding_error, require, refuse, ◌>>=◌, ◌>>◌,
}
use atlas_py.Values.{Value, integer, is_integer}
use atlas_py.Model.Knowledge.{PropertyAssertion, KnowledgeRecord, property}
use atlas_py.Model.Snapshot.{Snapshot, ContextDefinition}
use atlas_py.Model.Scope.{DecisionScope}
use atlas_py.Problem.{ObjectiveValue, check_objective_value, M1Objective}
use atlas_py.Problem.Select.{matches_objective}
use atlas_py.Rules.Reads.{assertions, is_isolated}
use atlas_py.Store.{Store, open_snapshot}
use atlas_py.Store.View.{effective_record_ids}

unfoldable pub the_scopes : Snapshot → List ContextDefinition → Result (Snapshot × List String)
the_scopes snapshot (c ∷ []) = ok (snapshot, c.visible_scopes)
the_scopes snapshot _ = err (grounding_error "context is not uniquely fixed by the scope snapshot")

-- _historical_context
unfoldable pub scope_context : Store → DecisionScope → Result (Snapshot × List String)
scope_context s scope = do
  snapshot ← open_snapshot s scope.snapshot
  the_scopes snapshot (keep (λ c. c.id == scope.context) snapshot.context_definitions)

unfoldable pub the_version : List (String × String) → Result String
the_version (v ∷ []) = ok v.1
the_version _ =
    err (grounding_error "M1 cost property version is absent or ambiguous in the scope snapshot")

-- _objective_version
unfoldable pub objective_version : Snapshot → Result String
objective_version snapshot = the_version (keep (λ v. v.0 == "cost") snapshot.property_versions)

-- The assertions of a property of the candidate that a view shows, of any kind and status.
unfoldable pub matches_cost :
    Store → String → String → String → List String → List String → PropertyAssertion → Bool
matches_cost s candidate name version ids scopes a =
    contains ids a.id
    && not (is_isolated s "property" a.id)
    && a.description == candidate
    && a.property == name
    && a.version == version
    && contains scopes a.scope

-- _eligible_objective_supports
unfoldable pub eligible_supports :
    Store → String → String → String → List String → List String → List PropertyAssertion
eligible_supports s candidate name version ids scopes =
    keep
      (λ a.
        matches_cost s candidate name version ids scopes a
        && a.epistemic_status == "exact"
        && is_integer a.value)
      (assertions (values s.records))

-- The effective ids of the snapshot under current semantics, all of its ids under legacy semantics.
unfoldable pub view_ids : Store → Bool → Snapshot → Result (List String)
view_ids s current snapshot =
    if current then effective_record_ids s snapshot.id else ok snapshot.record_ids

-- ObjectiveValue(record.value, …)
unfoldable pub objective_of : PropertyAssertion → Value → Result ObjectiveValue
objective_of a (integer v) =
    let o : ObjectiveValue = record {
      value = v;
      knowledge_id = a.id;
      property = a.property;
      version = a.version;
      epistemic_status = a.epistemic_status;
    } in
    do check_objective_value o; ok o
objective_of a _ =
    err (validation_error "objective value requires exact integer and knowledge identities")

-- The errors of a candidate that has no support.
unfoldable pub missing_support : String → List PropertyAssertion → Result ObjectiveValue
missing_support candidate found = do
  refuse (any (λ a. not (is_integer a.value)) found)
      (grounding_error ("historical M1 cost is not an exact integer for " <+> candidate))
  refuse (any (λ a. not (a.epistemic_status == "exact")) found)
      (grounding_error ("historical M1 cost is not exact for " <+> candidate))
  err (grounding_error ("required historical M1 cost is missing for " <+> candidate))

unfoldable pub the_support :
    String → List PropertyAssertion → List PropertyAssertion → Result ObjectiveValue
the_support candidate matching [] = missing_support candidate matching
the_support candidate matching (a ∷ []) = objective_of a a.value
the_support candidate matching (a ∷ b ∷ rest) =
    err (grounding_error ("required historical M1 cost is ambiguous for " <+> candidate))

-- _objective_for_true
unfoldable pub objective_for_true :
    Store → String → Snapshot → List String → String → Bool → Result ObjectiveValue
objective_for_true s candidate snapshot scopes version current = do
  ids ← view_ids s current snapshot
  the_support candidate
      (keep (matches_cost s candidate "cost" version ids scopes) (assertions (values s.records)))
      (eligible_supports s candidate "cost" version ids scopes)

unfoldable pub referenced_property :
    String → ObjectiveValue → Option KnowledgeRecord → Result PropertyAssertion
referenced_property candidate o (some (property a)) = do
  require (a.id == o.knowledge_id) (
      grounding_error
        ("persisted objective support is not the referenced property: " <+> candidate))
  ok a
referenced_property candidate o _ =
    err (
      grounding_error
        ("persisted objective support is not the referenced property: " <+> candidate))

-- record.value == objective_value.value, an integer
abbrev pub has_value : Value → ℤ → Bool
has_value (integer v) w = eq_ℤ v w
has_value _ w = false

unfoldable pub check_unique : String → ObjectiveValue → List PropertyAssertion → Check
check_unique candidate o (a ∷ []) = require (a.id == o.knowledge_id) (
    grounding_error
      ("persisted objective support is not the unique historical support: " <+> candidate))
check_unique candidate o _ =
    err (grounding_error ("M1 cost is not uniquely admissible for " <+> candidate))

-- _validate_persisted_objective_support
unfoldable pub validate_support :
    Store → String → M1Objective → Option ObjectiveValue → Snapshot → List String → Bool → Check
validate_support s candidate objective none snapshot scopes current =
    err (grounding_error ("TRUE candidate has no persisted objective support: " <+> candidate))
validate_support s candidate objective (some o) snapshot scopes current = do
  require (matches_objective objective o) (
      grounding_error
        ("persisted objective value disagrees with the problem objective: " <+> candidate))
  a ← referenced_property candidate o (get s.records o.knowledge_id)
  refuse (is_isolated s "property" a.id)
      (grounding_error ("persisted objective support is isolated: " <+> candidate))
  ids ← view_ids s current snapshot
  require (contains ids a.id) (
      grounding_error
        ("persisted objective support is outside the historical snapshot: " <+> candidate))
  require (contains scopes a.scope) (
      grounding_error
        ("persisted objective support is outside the historical context: " <+> candidate))
  require
      (a.description == candidate
        && a.property == objective.property
        && a.version == objective.version
        && a.epistemic_status == objective.epistemic_status
        && has_value a.value o.value)
      (grounding_error ("persisted objective support disagrees with the candidate: " <+> candidate))
  check_unique candidate o
      (eligible_supports s candidate objective.property objective.version ids scopes)
