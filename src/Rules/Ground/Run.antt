-- ===== src/Rules/Ground/Run.antt =====
-- The steps of a grounding that returns, and its result in terms of them.
use atlas_py.Errors.{
  >>-eq-ok, >>=-eq-ok, grounding_error, ok, require, require-true, validation_error,
}
use atlas_py.Evidence.{bindings_json, canonical_grounding, evidence_for, exact_id, exact_text}
use atlas_py.Graph.Walk.{ok_injective}
use atlas_py.Json.{Fields, Json, depth}
use atlas_py.Model.Grounding.{GroundedConclusion, GroundingResult, check_grounding_result}
use atlas_py.Model.Snapshot.{ContextDefinition, RuleDefinition, Snapshot}
use atlas_py.Prelude.{List, Option, String, [], contains, suc, sym, true, ◌≡◌}
use atlas_py.Prelude.Dict.{Dict, keys}
use atlas_py.Rules.{Outcome, new_state}
use atlas_py.Rules.Expr.{expr, operand}
use atlas_py.Rules.Ground.{
  bind_each, conclude, conclude_if_true, ground, ground_bound, historical_context, historical_rule,
  matches_declared, payload_fields, rule_structure, witnessed,
}
use atlas_py.Store.{Store, check_open, open_snapshot}
use atlas_py.Values.{same_texts}
use atlas_py.Vocabulary.Growth.{same_texts→eq}

-- The result before its evidence is computed.
abbrev pub pending :
    String
    → String
    → String
    → RuleDefinition
    → Dict String
    → Outcome
    → Option GroundedConclusion
    → GroundingResult
pending rule_id snapshot_id context_id rule bound outcome conclusion = record {
  rule_id = rule_id;
  rule_version = rule.version;
  bindings = bound;
  truth = outcome.truth;
  conclusion = conclusion;
  effective_dependencies = outcome.state.dependencies;
  missing_reads = outcome.state.missing;
  ambiguous_reads = outcome.state.ambiguous;
  snapshot = snapshot_id;
  context = context_id;
  grounding_evidence = "pending";
}

pub bindings-order :
    (digest : Json → String) (p : GroundingResult) (declared : List String) (evidence : String)
    → evidence_for digest p declared ≡ ok evidence
    → keys p.bindings ≡ declared
unfolding evidence_for canonical_grounding bindings_json
bindings-order digest p declared evidence sealed =
    let (json, e0, h0) = >>=-eq-ok (canonical_grounding p declared) _ sealed in
    let (rule, e1, h1) = >>=-eq-ok (exact_id "RuleId" "rule" p.rule_id) _ e0 in
    let (version, e2, h2) = >>=-eq-ok (exact_text "rule version" p.rule_version) _ h1 in
    let (bindings, e3, h3) = >>=-eq-ok (bindings_json p.bindings declared) _ h2 in
    let (same, h4) =
      >>-eq-ok
        (require (same_texts (keys p.bindings) declared)
          (validation_error "grounding bindings are not in rule participant order"))
        e3 in
    same_texts→eq (keys p.bindings) declared (require-true _ same)

module _ (digest : Json → String) (s : Store) (rule_id : String) (bindings : Dict String)
    (snapshot_id context_id : String) (r : GroundingResult) where
  -- The steps of a grounding that returns.
  pub record Run : Type 0 where
    pub snapshot : Snapshot
    pub rule : RuleDefinition
    pub context : ContextDefinition
    pub fs : Fields
    pub structure : List String × Fields
    pub bound : Dict String
    pub outcome : Outcome
    pub conclusion : Option GroundedConclusion
    pub stored : open_snapshot s snapshot_id ≡ ok snapshot
    pub fixed : historical_rule snapshot rule_id ≡ ok rule
    pub fielded : payload_fields rule.payload ≡ ok fs
    pub structured : rule_structure fs ≡ ok structure
    pub matched : matches_declared bindings structure.0 ≡ true
    pub bindings_made : bind_each bindings snapshot.description_ids structure.0 [] ≡ ok bound
    pub evaluated :
        (condition : Json) × (expr s bound snapshot context.visible_scopes
            (suc (depth rule.payload))
            condition
            new_state
          ≡ ok outcome)
    pub concluded :
        conclude_if_true outcome.truth (
          conclude s snapshot rule_id rule context.visible_scopes structure.0 structure.1 bound
            outcome.state)
        ≡ ok conclusion
    pub sealed :
        witnessed digest
          (pending rule_id snapshot_id context_id rule bound outcome conclusion)
          structure.0
        ≡ ok r

  bound_Run :
      (snapshot : Snapshot) (rule : RuleDefinition) (context : ContextDefinition) (fs : Fields)
      (structure : List String × Fields) (condition : Json) (bound : Dict String)
      → open_snapshot s snapshot_id ≡ ok snapshot
      → historical_rule snapshot rule_id ≡ ok rule
      → payload_fields rule.payload ≡ ok fs
      → rule_structure fs ≡ ok structure
      → matches_declared bindings structure.0 ≡ true
      → bind_each bindings snapshot.description_ids structure.0 [] ≡ ok bound
      → ground_bound digest s rule_id snapshot_id context_id snapshot rule context structure
          condition bound
        ≡ ok r
      → Run
  unfolding ground_bound
  bound_Run snapshot rule context fs structure condition bound stored fixed fielded structured
        matched made h =
      let (outcome, e10, h10) =
        >>=-eq-ok
          (expr s bound snapshot context.visible_scopes (suc (depth rule.payload)) condition
            new_state)
          _ h in
      let (conclusion, e11, h11) =
        >>=-eq-ok
          (conclude_if_true outcome.truth (
            conclude s snapshot rule_id rule context.visible_scopes structure.0 structure.1 bound
              outcome.state))
          _ h10 in
      record {
        snapshot = snapshot;
        rule = rule;
        context = context;
        fs = fs;
        structure = structure;
        bound = bound;
        outcome = outcome;
        conclusion = conclusion;
        stored = stored;
        fixed = fixed;
        fielded = fielded;
        structured = structured;
        matched = matched;
        bindings_made = made;
        evaluated = (condition, e10);
        concluded = e11;
        sealed = h11;
      }

  pub ground-Run : ground digest s rule_id bindings snapshot_id context_id ≡ ok r → Run
  unfolding ground
  ground-Run h =
      let (opened, h1) = >>-eq-ok (check_open s) h in
      let (snapshot, e2, h2) = >>=-eq-ok (open_snapshot s snapshot_id) _ h1 in
      let (rule, e3, h3) = >>=-eq-ok (historical_rule snapshot rule_id) _ h2 in
      let (context, e4, h4) = >>=-eq-ok (historical_context snapshot context_id) _ h3 in
      let (enabled, h5) =
        >>-eq-ok
          (require (contains context.enabled_rules rule_id)
            (grounding_error "rule is not enabled by the requested context"))
          h4 in
      let (fs, e6, h6) = >>=-eq-ok (payload_fields rule.payload) _ h5 in
      let (structure, e7, h7) = >>=-eq-ok (rule_structure fs) _ h6 in
      let (declared, h8) =
        >>-eq-ok
          (require (matches_declared bindings structure.0)
            (grounding_error "bindings must exactly match declared participants"))
          h7 in
      let (bound, e9, h9) =
        >>=-eq-ok (bind_each bindings snapshot.description_ids structure.0 []) _ h8 in
      bound_Run snapshot rule context fs structure (operand fs "when") bound e2 e3 e6 e7
        (require-true _ declared) e9 h9

  -- Sealing changes the evidence alone.
  pub sealed_evidence :
      (p : GroundingResult) (declared : List String)
      → witnessed digest p declared ≡ ok r
      → (evidence : String) × (evidence_for digest p declared ≡ ok evidence)
        × (r ≡ record p { grounding_evidence = evidence })
  unfolding witnessed
  sealed_evidence p declared h =
      let (checked, h1) = >>-eq-ok (check_grounding_result p) h in
      let (evidence, e, h2) = >>=-eq-ok (evidence_for digest p declared) _ h1 in
      (evidence, e, sym (ok_injective h2))
