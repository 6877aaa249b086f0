-- ===== src/Rules/Ground.antt =====
-- rules.py: `ground`, the evaluation of a rule that the snapshot fixes and the context enables.
pub mod Run
pub mod Bound
pub mod Reads
use atlas_py.Prelude.{
  String, Bool, true, false, not, ◌&&◌, ◌||◌, Option, none, some, List, [], ◌∷◌, ◌++◌, ◌==◌, suc,
  length, nat_eq, all, contains, keep, if◌then◌else◌,
}
use atlas_py.Prelude.Texts.{◌<+>◌}
use atlas_py.Prelude.Dict.{Dict, get, put, has, keys}
use atlas_py.Errors.{
  Result, ok, err, grounding_error, unsupported_rule_error, attribute_error, require, refuse, ◌>>=◌,
  ◌>>◌,
}
use atlas_py.Identity.{identifier}
use atlas_py.Json.{Json, Fields, array, object, lookup, texts, depth}
use atlas_py.Values.{same_texts}
use atlas_py.Provenance.{canonical_provenance}
use atlas_py.Evidence.{evidence_for}
use atlas_py.Model.Knowledge.{ScopeRef, one, many, KnowledgeRecord, record_provenance}
use atlas_py.Model.Snapshot.{Snapshot, ContextDefinition, RuleDefinition}
use atlas_py.Model.Grounding.{
  EvaluationTruth, is_true, RelationTerm, GroundedConclusion, is_polarity, check_conclusion,
  GroundingResult, check_grounding_result,
}
use atlas_py.Store.{Store, check_open, subscript, open_snapshot}
use atlas_py.Rules.{State, new_state, Outcome, text_field}
use atlas_py.Rules.Reads.{fixes}
use atlas_py.Rules.Expr.{operand, expr}

unfoldable pub the_rule : List RuleDefinition → Result RuleDefinition
the_rule (r ∷ []) = do
  require r.evaluation_supported
      (unsupported_rule_error ("rule " <+> r.id <+> "@" <+> r.version <+> " is unsupported"))
  ok r
the_rule _ = err (grounding_error "rule is not fixed by the requested snapshot")

-- _historical_rule
unfoldable pub historical_rule : Snapshot → String → Result RuleDefinition
historical_rule snapshot rule_id = the_rule (keep (λ x. x.id == rule_id) snapshot.rule_definitions)

unfoldable pub the_context : List ContextDefinition → Result ContextDefinition
the_context (c ∷ []) = ok c
the_context _ = err (grounding_error "context is not fixed by the requested snapshot")

-- _historical_context
unfoldable pub historical_context : Snapshot → String → Result ContextDefinition
historical_context snapshot context_id =
    the_context (keep (λ x. x.id == context_id) snapshot.context_definitions)

-- payload.get, on a payload that may be no object
unfoldable pub payload_fields : Json → Result Fields
payload_fields (object fs) = ok fs
payload_fields _ = err (attribute_error "get")

abbrev pub text_list : Option Json → Option (List String)
text_list (some (array xs)) = texts xs
text_list _ = none

-- The declared participants and the head of a historical rule.
unfoldable pub rule_structure : Fields → Result (List String × Fields)
rule_structure fs = elim (text_list (lookup fs "participants")) [
  | none ↦ err (grounding_error "invalid historical rule structure")
  | some declared ↦ elim (lookup fs "head") [
    | some (object head) ↦ ok (declared, head)
    | _ ↦ err (grounding_error "invalid historical rule structure")
  ]
]

unfoldable pub matches_declared : Dict String → List String → Bool
matches_declared bindings declared =
    nat_eq (length bindings) (length declared)
    && all (has bindings) declared
    && all (contains declared) (keys bindings)

-- The loop that builds `ordered`, and `dict(ordered)`.
unfoldable pub bind_each :
    Dict String → List String → List String → Dict String → Result (Dict String)
bind_each bindings known [] bound = ok bound
bind_each bindings known (name ∷ names) bound = do
  value ← subscript bindings name
  require (contains known value)
      (grounding_error "binding references a description absent from the requested snapshot")
  bind_each bindings known names (put bound name value)

-- tuple(bound[name] for name in names)
unfoldable pub subscript_all : Dict String → List String → Result (List String)
subscript_all bound [] = ok []
subscript_all bound (name ∷ names) = do
  value ← subscript bound name
  rest ← subscript_all bound names
  ok (value ∷ rest)

unfoldable pub sources_of : Store → List String → List String
sources_of s [] = []
sources_of s (x ∷ xs) =
    let rest = sources_of s xs in
    elim (get s.records x) [ none ↦ rest | some r ↦ record_provenance r ++ rest ]

-- _terminal_provenance
unfoldable pub terminal_provenance : Store → List String → List String
terminal_provenance s dependencies = canonical_provenance (sources_of s dependencies)

-- _scope
unfoldable pub scope_of : List String → ScopeRef
scope_of (x ∷ []) = one x
scope_of xs = many xs

pub record Head : Type 0 where
  pub predicate : String
  pub version : String
  pub polarity : String

-- The fields of the head, where they have the types asked for.
unfoldable pub head_of : List String → Fields → Option Head
head_of declared fs = elim (text_field fs "predicate") [
  | none ↦ none
  | some predicate ↦ elim (text_field fs "version") [
    | none ↦ none
    | some version ↦ elim (text_list (lookup fs "participants")) [
      | none ↦ none
      | some participants ↦ elim (text_field fs "polarity") [
        | none ↦ none
        | some polarity ↦
            if same_texts participants declared && is_polarity polarity
            then some (record { predicate = predicate; version = version; polarity = polarity })
            else none
      ]
    ]
  ]
]

unfoldable pub find_head : List String → Fields → Result Head
find_head declared fs = elim (head_of declared fs) [
  | none ↦ err (grounding_error "invalid rule head")
  | some head ↦ ok head
]

unfoldable pub checked_conclusion : GroundedConclusion → Result GroundedConclusion
checked_conclusion c = do check_conclusion c; ok c

unfoldable pub conclude :
    Store
    → Snapshot
    → String
    → RuleDefinition
    → List String
    → List String
    → Fields
    → Dict String
    → State
    → Result GroundedConclusion
conclude s snapshot rule_id rule scopes declared fs bound st = do
  head ← find_head declared fs
  identifier head.predicate
  require (fixes snapshot.predicate_versions head.predicate head.version)
      (grounding_error "rule head predicate version is outside the snapshot")
  participants ← subscript_all bound declared
  checked_conclusion (record {
    term = record {
      predicate = head.predicate;
      version = head.version;
      participants = participants;
    };
    polarity = head.polarity;
    epistemic_status = "exact";
    scope = scope_of scopes;
    provenance = terminal_provenance s st.dependencies;
    rule_id = rule_id;
    rule_version = rule.version;
    dependencies = st.dependencies;
  })

-- The conclusion of a TRUE rule, and none of another.
unfoldable pub conclude_if_true :
    EvaluationTruth → Result GroundedConclusion → Result (Option GroundedConclusion)
conclude_if_true truth concluded =
    if is_true truth then (do c ← concluded; ok (some c)) else ok none

module _ (digest : Json → String) where
  -- The result, with the evidence in the place of "pending".
  unfoldable pub witnessed : GroundingResult → List String → Result GroundingResult
  witnessed result declared = do
    check_grounding_result result
    evidence ← evidence_for digest result declared
    ok (record result { grounding_evidence = evidence })

  -- The steps of `ground` from the evaluation on.
  unfoldable pub ground_bound :
      Store
      → String
      → String
      → String
      → Snapshot
      → RuleDefinition
      → ContextDefinition
      → List String × Fields
      → Json
      → Dict String
      → Result GroundingResult
  ground_bound s rule_id snapshot_id context_id snapshot rule context structure condition bound = do
    outcome ←
        expr s bound snapshot context.visible_scopes (suc (depth rule.payload)) condition new_state
    conclusion ← conclude_if_true outcome.truth (
        conclude s snapshot rule_id rule context.visible_scopes structure.0 structure.1 bound
          outcome.state)
    witnessed
        (record {
          rule_id = rule_id;
          rule_version = rule.version;
          bindings = bound;
          truth = outcome.truth;
          conclusion = conclusion;
          effective_dependencies = outcome.state.dependencies;
          missing_reads = outcome.state.missing;
          ambiguous_reads = outcome.state.ambiguous;
          snapshot = snapshot_id;
          context = context_id;
          grounding_evidence = "pending";
        })
        structure.0

  unfoldable pub ground : Store → String → Dict String → String → String → Result GroundingResult
  ground s rule_id bindings snapshot_id context_id = do
    check_open s
    snapshot ← open_snapshot s snapshot_id
    rule ← historical_rule snapshot rule_id
    context ← historical_context snapshot context_id
    require (contains context.enabled_rules rule_id)
        (grounding_error "rule is not enabled by the requested context")
    fs ← payload_fields rule.payload
    structure ← rule_structure fs
    require (matches_declared bindings structure.0)
        (grounding_error "bindings must exactly match declared participants")
    bound ← bind_each bindings snapshot.description_ids structure.0 []
    ground_bound s rule_id snapshot_id context_id snapshot rule context structure
        (operand fs "when") bound
