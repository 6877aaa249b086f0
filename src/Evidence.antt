-- ===== src/Evidence.antt =====
-- src/atlas/evidence.py: the canonical form of a grounding result, which the evidence is a digest of.
-- A tuple is a JSON array. `digest` is `hashlib.sha256` of the `json.dumps` text of the canonical form,
-- a parameter.
use atlas_py.Prelude.{String, Option, none, some, List, [], ◌∷◌, ◌==◌}
use atlas_py.Prelude.Texts.{◌<+>◌}
use atlas_py.Prelude.Dict.{Dict, keys}
use atlas_py.Errors.{Check, Result, ok, validation_error, require, ◌>>=◌, ◌>>◌}
use atlas_py.Json.{Json, Items, null, text, array, nil, cons}
use atlas_py.Values.{nonempty, same_texts}
use atlas_py.Provenance.{canonical_provenance}
use atlas_py.Model.Knowledge.{ScopeRef, one, many}
use atlas_py.Model.Grounding.{
  EvaluationTruth, holds, fails, unknown, MissingRead, AmbiguousRead, GroundedConclusion,
  GroundingResult,
}
use atlas_py.Store.{subscript}

unfoldable pub items : List Json → Items
items [] = nil
items (x ∷ xs) = cons x (items xs)

abbrev pub tuple : List Json → Json
tuple xs = array (items xs)

-- tuple(f(x) for x in xs)
unfoldable pub each_json {ℓ} : {A : Type ℓ} → (A → Result Json) → List A → Result (List Json)
each_json f [] = ok []
each_json f (x ∷ xs) = do y ← f x; ys ← each_json f xs; ok (y ∷ ys)

-- _text
unfoldable pub exact_text : String → String → Result Json
exact_text label value = do
  require (nonempty value) (validation_error (label <+> " must be exact non-empty text"))
  ok (text value)

-- _id
unfoldable pub exact_id : String → String → String → Result Json
exact_id domain label value = do
  t ← exact_text label value
  ok (tuple (text "id" ∷ text domain ∷ t ∷ []))

unfoldable pub scope_json : ScopeRef → Result Json
scope_json (one s) = do t ← exact_text "scope" s; ok (tuple (text "scope" ∷ text "one" ∷ t ∷ []))
scope_json (many ss) = do
  ts ← each_json (exact_text "scope") ss
  ok (tuple (text "scope" ∷ text "many" ∷ tuple ts ∷ []))

unfoldable pub binding_json : Dict String → String → Result Json
binding_json bindings name = do
  description ← subscript bindings name
  t ← exact_id "DescriptionId" "binding" description
  ok (tuple (text name ∷ t ∷ []))

unfoldable pub bindings_json : Dict String → List String → Result Json
bindings_json bindings participants = do
  require (same_texts (keys bindings) participants)
      (validation_error "grounding bindings are not in rule participant order")
  ts ← each_json (binding_json bindings) participants
  ok (tuple ts)

unfoldable pub dependencies_json : List String → Result Json
dependencies_json values = do
  ts ← each_json (exact_id "KnowledgeId" "dependency") values
  ok (tuple ts)

unfoldable pub missing_json : MissingRead → Result Json
missing_json r = do
  participant ← exact_text "participant" r.participant
  description ← exact_id "DescriptionId" "description" r.description
  name ← exact_id "PropertyId" "property" r.property
  version ← exact_text "version" r.version
  ok (tuple (text "missing" ∷ participant ∷ description ∷ name ∷ version ∷ []))

unfoldable pub ambiguous_json : AmbiguousRead → Result Json
ambiguous_json r = do
  participant ← exact_text "participant" r.participant
  description ← exact_id "DescriptionId" "description" r.description
  name ← exact_id "PropertyId" "property" r.property
  version ← exact_text "version" r.version
  ids ← dependencies_json r.knowledge_ids
  ok (tuple (text "ambiguous" ∷ participant ∷ description ∷ name ∷ version ∷ ids ∷ []))

abbrev pub tagged : String → Json → Json
tagged tag value = tuple (text tag ∷ value ∷ [])

unfoldable pub conclusion_json : Option GroundedConclusion → Result Json
conclusion_json none = ok null
conclusion_json (some c) = do
  predicate ← exact_id "PredicateId" "predicate" c.term.predicate
  version ← exact_text "predicate version" c.term.version
  participants ← each_json (exact_id "DescriptionId" "participant") c.term.participants
  polarity ← exact_text "polarity" c.polarity
  status ← exact_text "epistemic status" c.epistemic_status
  scope ← scope_json c.scope
  sources ← each_json (exact_id "SourceId" "provenance") (canonical_provenance c.provenance)
  rule ← exact_id "RuleId" "conclusion rule" c.rule_id
  rule_version ← exact_text "conclusion rule version" c.rule_version
  dependencies ← dependencies_json c.dependencies
  ok (
      tuple (
        text "conclusion"
        ∷ predicate
        ∷ version
        ∷ tagged "participants" (tuple participants)
        ∷ tagged "polarity" polarity
        ∷ tagged "epistemic_status" status
        ∷ scope
        ∷ tagged "provenance" (tuple sources)
        ∷ rule
        ∷ rule_version
        ∷ dependencies
        ∷ []))

-- truth.value
abbrev pub truth_text : EvaluationTruth → String
truth_text holds = "TRUE"
truth_text fails = "FALSE"
truth_text unknown = "UNKNOWN"

unfoldable pub canonical_grounding : GroundingResult → List String → Result Json
canonical_grounding r participants = do
  rule ← exact_id "RuleId" "rule" r.rule_id
  rule_version ← exact_text "rule version" r.rule_version
  bindings ← bindings_json r.bindings participants
  snapshot ← exact_id "SnapshotId" "snapshot" r.snapshot
  context ← exact_id "ContextId" "context" r.context
  conclusion ← conclusion_json r.conclusion
  dependencies ← dependencies_json r.effective_dependencies
  missing ← each_json missing_json r.missing_reads
  ambiguous ← each_json ambiguous_json r.ambiguous_reads
  ok (
      tuple (
        text "atlas-grounding-evidence-v1"
        ∷ rule
        ∷ rule_version
        ∷ tagged "bindings" bindings
        ∷ tagged "snapshot" snapshot
        ∷ tagged "context" context
        ∷ tagged "truth" (text (truth_text r.truth))
        ∷ conclusion
        ∷ tagged "effective_dependencies" dependencies
        ∷ tagged "missing_reads" (tuple missing)
        ∷ tagged "ambiguous_reads" (tuple ambiguous)
        ∷ []))

module _ (digest : Json → String) where
  unfoldable pub evidence_for : GroundingResult → List String → Result String
  evidence_for r participants = do
    canonical ← canonical_grounding r participants
    ok (digest canonical)

  unfoldable pub validate_grounding_evidence : GroundingResult → List String → Check
  validate_grounding_evidence r participants = do
    expected ← evidence_for r participants
    require (r.grounding_evidence == expected)
        (validation_error "grounding evidence does not match grounding content")
