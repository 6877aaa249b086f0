-- ===== src/Scope.antt =====
-- src/atlas/scope.py: decision scopes and their observable grounding runs. Here are the conditions
-- that a scope meets in its store, and the formats that a scope and its grounding may have.
pub mod Discovery
pub mod Validate
pub mod Evaluate
pub mod Created
use atlas_py.Errors.{
  Check, Result, admission_error, expect, grounding_error, ok, refuse, require, validation_error,
  ◌>>=◌, ◌>>◌,
}
use atlas_py.Model.Knowledge.{Context, Rule}
use atlas_py.Model.Scope.{
  DecisionGrounding, DecisionScope, GroundingManifest, Schema, check_manifest, is_supported_version,
  legacy, current, is_current,
}
use atlas_py.Model.Snapshot.{ContextDefinition, RuleDefinition, Snapshot}
use atlas_py.Prelude.{
  Bool, List, Option, String, [], all, contains, false, is_empty, keep, none, not, some, true, ◌&&◌,
  ◌==◌, ◌∷◌,
}
use atlas_py.Prelude.Dict.{Dict, get, has, put}
use atlas_py.Store.{Store, check_open}
use atlas_py.Values.{same_texts}

-- validate_grounding_manifest
unfoldable pub validate_manifest : GroundingManifest → Check
validate_manifest m =
    require (is_supported_version m.manifest_version)
      (validation_error "unsupported grounding manifest version")

-- The one historical definition of the context is that of the final context.
unfoldable pub agrees_with : Context → List ContextDefinition → Bool
agrees_with c (d ∷ []) =
    same_texts c.visible_scopes d.visible_scopes && same_texts c.enabled_rules d.enabled_rules
agrees_with c _ = false

-- {x[0]: x[1] for x in rule_definitions}
unfoldable pub fixed_rules : Dict String → List RuleDefinition → Dict String
fixed_rules d [] = d
fixed_rules d (r ∷ rs) = fixed_rules (put d r.id r.version) rs

unfoldable pub same_version : Option String → Rule → Bool
same_version none rule = false
same_version (some version) rule = version == rule.version

unfoldable pub is_final_rule : Store → Dict String → String → Bool
is_final_rule s fixed rule_id = elim (get s.rules rule_id) [
  | none ↦ false
  | some rule ↦ same_version (get fixed rule_id) rule
]

-- for rule_id in …: the rule is final
unfoldable pub check_final_rules : Store → Dict String → List String → Check
check_final_rules s fixed [] = ok tt
check_final_rules s fixed (r ∷ rs) = do
  require (is_final_rule s fixed r)
      (grounding_error "decision scope rule is absent from final rules")
  check_final_rules s fixed rs

-- The part of `validate_scope_environment` after the lookups.
unfoldable pub check_environment : Store → DecisionScope → Context → Snapshot → Check
check_environment s scope context snapshot = do
  require (contains snapshot.context_ids scope.context)
      (grounding_error "decision scope context is not fixed by snapshot")
  require (agrees_with context (keep (λ x. x.id == scope.context) snapshot.context_definitions))
      (grounding_error "decision scope context disagrees with final context")
  require (contains snapshot.description_ids scope.intention)
      (grounding_error "decision scope intention is absent from snapshot")
  refuse (is_current scope.schema && scope.intention == scope.request)
      (grounding_error "decision scope intention and request must differ")
  require (contains snapshot.description_ids scope.request)
      (grounding_error "decision scope request is absent from snapshot")
  require (all (contains snapshot.description_ids) scope.manifest.candidate_description_ids)
      (grounding_error "decision scope candidate is absent from snapshot")
  refuse (is_empty scope.manifest.prescribed_rule_ids)
      (grounding_error "decision scope has no prescribed rule")
  require (all (has (fixed_rules [] snapshot.rule_definitions)) scope.manifest.prescribed_rule_ids)
      (grounding_error "decision scope rule is absent from snapshot")
  check_final_rules s (fixed_rules [] snapshot.rule_definitions) scope.manifest.prescribed_rule_ids

unfoldable pub validate_scope_environment : Store → DecisionScope → Check
validate_scope_environment s scope = do
  validate_manifest scope.manifest
  context ←
      expect "decision scope context is absent from final contexts" (get s.contexts scope.context)
  snapshot ← expect "decision scope snapshot does not exist" (get s.snapshots scope.snapshot)
  check_environment s scope context snapshot

-- validate_scope_grounding_compatibility
unfoldable pub check_compatible : DecisionScope → DecisionGrounding → Check
check_compatible scope grounding =
    refuse (is_current scope.schema && not (is_current grounding.schema))
      (grounding_error "current decision scope cannot use legacy grounding")

-- self.decision_scopes[scope.id.value] = scope
abbrev pub with_scope : Store → DecisionScope → Store
with_scope s scope = record s { decision_scopes = put s.decision_scopes scope.id scope }

-- The scope of a request: its schema is the current one.
abbrev pub declared_scope :
    String → String → String → String → String → GroundingManifest → DecisionScope
declared_scope ident snapshot context intention request manifest = record {
  id = ident;
  snapshot = snapshot;
  context = context;
  intention = intention;
  request = request;
  manifest = manifest;
  schema = current;
}

-- Store.create_decision_scope: the store afterwards, and the scope
unfoldable pub create_decision_scope :
    Store
    → String
    → String
    → String
    → String
    → String
    → GroundingManifest
    → Result (Store × DecisionScope)
create_decision_scope s ident snapshot context intention request manifest =
    let scope = declared_scope ident snapshot context intention request manifest in
    do
      check_open s
      check_manifest manifest
      refuse (has s.decision_scopes ident) (admission_error "duplicate decision scope identity")
      validate_manifest manifest
      validate_scope_environment s scope
      ok (with_scope s scope, scope)
