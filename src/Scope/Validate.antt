-- ===== src/Scope/Validate.antt =====
-- scope.py: `validate_grounding_result` and `compute_declared_scope_completeness`, which check a
-- grounding run against the historical world of its scope.
pub mod Agreement
pub mod Accepted
use atlas_py.Errors.{
  AtlasError, Check, Result, attribute_error, err, grounding_error, key_error, ok, refuse, require,
  type_error, validation_error, ◌>>=◌, ◌>>◌,
}
use atlas_py.Evidence.{validate_grounding_evidence}
use atlas_py.Json.{Fields, Items, Json, array, cons, end, field, lookup, nil, object, texts, text}
use atlas_py.Model.Grounding.{
  GroundedConclusion, GroundingResult, GroundingStatus, complete_for_declared_scope, incomplete,
  is_true, invalid,
}
use atlas_py.Model.Scope.{DecisionGrounding, DecisionScope, GroundingObservation, is_current}
use atlas_py.Model.Snapshot.{RuleDefinition, Snapshot}
use atlas_py.Prelude.{
  Bool, List, Option, String, [], all, any, contains, distinct, false, if◌then◌else◌, is_some, keep,
  map, none, not, some, subset, ◌&&◌, ◌==◌, ◌∷◌, ◌||◌,
}
use atlas_py.Prelude.Dict.{Dict, get, has, keys, values}
use atlas_py.Problem.Support.{view_ids}
use atlas_py.Rules.{text_field}
use atlas_py.Rules.Ground.{subscript_all}
use atlas_py.Scope.{check_compatible, validate_scope_environment}
use atlas_py.Scope.Discovery.{validate_discovery}
use atlas_py.Store.{Store, subscript}
use atlas_py.Values.{same_texts}

-- tuple(text), letter by letter
unfoldable pub letters : String → List String
letters String.[] = []
letters (String.◌∷◌ c s) = (String.◌∷◌ c String.[]) ∷ letters s

unfoldable pub field_names : Fields → List String
field_names end = []
field_names (field k v fs) = k ∷ field_names fs

abbrev pub invalid_rule : AtlasError
invalid_rule = grounding_error "invalid historical grounding rule"

-- tuple(historical["participants"]) where it is a tuple of texts, and `none` where an item is no
-- text; what is no iterable is refused.
unfoldable pub declared_names : Option Json → Result (Option (List String))
declared_names (some (array xs)) = ok (texts xs)
declared_names (some (text s)) = ok (some (letters s))
declared_names (some (object fs)) = ok (some (field_names fs))
declared_names _ = err invalid_rule

-- The participants and the head of a historical rule.
unfoldable pub historical_parts : Json → Result (Option (List String) × Json)
historical_parts (object fs) = do
  declared ← declared_names (lookup fs "participants")
  elim (lookup fs "head") [ none ↦ err invalid_rule | some head ↦ ok (declared, head) ]
historical_parts _ = err invalid_rule

unfoldable pub in_declared_order : Dict String → Option (List String) → Bool
in_declared_order bindings none = false
in_declared_order bindings (some names) = same_texts (keys bindings) names

-- bindings.get(name) == value
unfoldable pub binds : Dict String → String → String → Bool
binds bindings name value = elim (get bindings name) [ none ↦ false | some v ↦ v == value ]

-- bindings[name], for a name of any type
unfoldable pub subscript_name : Dict String → Json → Result String
subscript_name bindings (text s) = subscript bindings s
subscript_name bindings (array xs) = err (type_error "unhashable type: 'list'")
subscript_name bindings (object fs) = err (type_error "unhashable type: 'dict'")
subscript_name bindings _ = err (key_error "")

unfoldable pub subscript_items : Dict String → Items → Result (List String)
subscript_items bindings nil = ok []
subscript_items bindings (cons x xs) = do
  v ← subscript_name bindings x
  vs ← subscript_items bindings xs
  ok (v ∷ vs)

-- tuple(bindings[name] for name in head.get("participants", ()))
unfoldable pub bound_participants : Dict String → Option Json → Result (List String)
bound_participants bindings none = ok []
bound_participants bindings (some (array xs)) = subscript_items bindings xs
bound_participants bindings (some (text s)) = subscript_all bindings (letters s)
bound_participants bindings (some (object fs)) = subscript_all bindings (field_names fs)
bound_participants bindings _ = err (type_error "object is not iterable")

-- value == head.get(key)
unfoldable pub has_text : Fields → String → String → Bool
has_text fs key value = elim (text_field fs key) [ none ↦ false | some s ↦ value == s ]

unfoldable pub check_head : Fields → GroundingResult → GroundedConclusion → Check
check_head head r c = do
  participants ← bound_participants r.bindings (lookup head "participants")
  require (same_texts participants c.term.participants)
      (grounding_error "grounding conclusion disagrees with historical rule bindings")
  require
      (has_text head "predicate" c.term.predicate
        && has_text head "version" c.term.version
        && has_text head "polarity" c.polarity)
      (grounding_error "grounding conclusion disagrees with historical rule head")
  require (same_texts c.dependencies r.effective_dependencies)
      (grounding_error "grounding conclusion dependencies disagree with effective dependencies")

-- head.get, on a head that may be no object
unfoldable pub check_true : Json → GroundingResult → Option GroundedConclusion → Check
check_true head r none =
    err (grounding_error "grounding conclusion disagrees with historical rule bindings")
check_true (object fs) r (some c) = check_head fs r c
check_true _ r (some c) = err (attribute_error "get")

unfoldable pub check_conclusion_of : Json → GroundingResult → Check
check_conclusion_of head r =
    if is_true r.truth
    then check_true head r r.conclusion
    else refuse (is_some r.conclusion)
        (grounding_error "non-TRUE grounding cannot carry a conclusion")

-- An admissible id of a record of the store.
unfoldable pub is_resolved_id : Store → List String → String → Bool
is_resolved_id s admissible x = contains admissible x && has s.records x

abbrev pub conclusion_dependencies : Option GroundedConclusion → List String
conclusion_dependencies none = []
conclusion_dependencies (some c) = c.dependencies

unfoldable pub check_dependencies : Store → List String → GroundingResult → Check
check_dependencies s admissible r = do
  require (distinct r.effective_dependencies)
      (grounding_error "grounding result contains duplicate dependencies")
  require (all (is_resolved_id s admissible) r.effective_dependencies)
      (grounding_error "grounding result references an unresolved historical dependency")
  refuse
      (is_true r.truth
        && not (all (is_resolved_id s admissible) (conclusion_dependencies r.conclusion)))
      (grounding_error "grounding conclusion references an unresolved historical dependency")

unfoldable pub check_bindings :
    DecisionScope → String → Snapshot → Option (List String) → Dict String → Check
check_bindings scope candidate snapshot declared bindings = do
  require (in_declared_order bindings declared)
      (grounding_error "grounding result bindings disagree with historical rule")
  require (all (contains snapshot.description_ids) (values bindings))
      (grounding_error "grounding result binding is outside the snapshot")
  require (binds bindings "candidate" candidate && binds bindings "request" scope.request)
      (grounding_error "grounding result bindings disagree with scope")

-- The one definition of the result's rule has its version.
unfoldable pub fixed_definition : List RuleDefinition → String → Result RuleDefinition
fixed_definition (d ∷ []) version = do
  require (d.version == version)
      (grounding_error "grounding result rule version is not fixed by the snapshot")
  ok d
fixed_definition _ version =
    err (grounding_error "grounding result rule version is not fixed by the snapshot")

abbrev pub observed_ids : List GroundingObservation → List String
observed_ids os = map (λ o. o.candidate) os

-- The status that the run has earned.
unfoldable pub earned_status : List String → DecisionGrounding → GroundingStatus
earned_status manifest_ids g =
    if any (λ o. is_some o.structural_error) g.observations
    then invalid
    else (if g.interrupted || g.pruned
        then incomplete
        else (if not (
                subset (observed_ids g.observations) manifest_ids
                && subset manifest_ids (observed_ids g.observations))
              || any (λ o. not o.traversed) g.observations
            then incomplete
            else complete_for_declared_scope))

module _ (digest : Json → String) where
  unfoldable pub check_result :
      Store → DecisionScope → String → Bool → GroundingResult → Option Snapshot → Check
  check_result s scope candidate modern r none =
      err (grounding_error "grounding result environment disagrees with scope")
  check_result s scope candidate modern r (some snapshot) = do
    require (r.snapshot == scope.snapshot && r.context == scope.context)
        (grounding_error "grounding result environment disagrees with scope")
    require (contains scope.manifest.prescribed_rule_ids r.rule_id)
        (grounding_error "grounding result rule is not prescribed by the manifest")
    definition ←
        fixed_definition (keep (λ d. d.id == r.rule_id) snapshot.rule_definitions) r.rule_version
    parts ← historical_parts definition.payload
    check_bindings scope candidate snapshot parts.0 r.bindings
    check_conclusion_of parts.1 r
    admissible ← view_ids s modern snapshot
    check_dependencies s admissible r
    validate_grounding_evidence digest r (keys r.bindings)

  -- validate_grounding_result
  unfoldable pub validate_result : Store → DecisionScope → Bool → GroundingObservation → Check
  validate_result s scope modern o = elim o.grounding_result [
    | none ↦ ok tt
    | some r ↦ check_result s scope o.candidate modern r (get s.snapshots scope.snapshot)
  ]

  -- One round of the loop over the observations.
  unfoldable pub validate_observation : Store → DecisionScope → Bool → GroundingObservation → Check
  validate_observation s scope modern o = do
    validate_result s scope modern o
    (if modern then validate_discovery s scope o else ok tt)

  unfoldable pub validate_observations :
      Store → DecisionScope → Bool → List GroundingObservation → Check
  validate_observations s scope modern [] = ok tt
  validate_observations s scope modern (o ∷ os) = do
    validate_observation s scope modern o
    validate_observations s scope modern os

  unfoldable pub compute_completeness :
      Store → DecisionScope → DecisionGrounding → Result GroundingStatus
  compute_completeness s scope g = do
    validate_scope_environment s scope
    check_compatible scope g
    require (distinct (observed_ids g.observations))
        (validation_error "duplicate grounding observation")
    require (all (contains scope.manifest.candidate_description_ids) (observed_ids g.observations))
        (validation_error "grounding observation is outside the manifest")
    validate_observations s scope (is_current g.schema) g.observations
    ok (earned_status scope.manifest.candidate_description_ids g)
