-- ===== src/Model/Grounding.antt =====
-- model.py: the truth values and the result of evaluating one rule at one binding.
use atlas_py.Prelude.{
  String, Bool, true, false, not, ◌&&◌, ◌||◌, Option, List, ◌==◌, is_none, is_some,
}
use atlas_py.Errors.{Check, validation_error, require, refuse, ◌>>◌}
use atlas_py.Values.{nonempty}
use atlas_py.Model.Knowledge.{ScopeRef}

pub data EvaluationTruth : Type 0 where
  holds fails unknown : EvaluationTruth

abbrev pub is_true : EvaluationTruth → Bool
is_true holds = true
is_true _ = false

abbrev pub is_false : EvaluationTruth → Bool
is_false fails = true
is_false _ = false

abbrev pub is_unknown : EvaluationTruth → Bool
is_unknown unknown = true
is_unknown _ = false

-- left is right
abbrev pub truth_eq : EvaluationTruth → EvaluationTruth → Bool
truth_eq holds t = is_true t
truth_eq fails t = is_false t
truth_eq unknown t = is_unknown t

pub record RelationTerm : Type 0 where
  pub predicate : String
  pub version : String
  pub participants : List String

pub record MissingRead : Type 0 where
  pub participant : String
  pub description : String
  pub property : String
  pub version : String

pub record AmbiguousRead : Type 0 where
  pub participant : String
  pub description : String
  pub property : String
  pub version : String
  pub knowledge_ids : List String

pub record GroundedConclusion : Type 0 where
  pub term : RelationTerm
  pub polarity : String
  pub epistemic_status : String
  pub scope : ScopeRef
  pub provenance : List String
  pub rule_id : String
  pub rule_version : String
  pub dependencies : List String

-- polarity in {"positive", "negative"}
abbrev pub is_polarity : String → Bool
is_polarity p = p == "positive" || p == "negative"

-- RelationTerm and GroundedConclusion
unfoldable pub check_conclusion : GroundedConclusion → Check
check_conclusion c = do
  require (nonempty c.term.version) (validation_error "invalid relation term")
  require (is_polarity c.polarity) (validation_error "invalid grounded conclusion metadata")
  require (c.epistemic_status == "exact")
      (validation_error "unsupported grounded conclusion epistemic status")
  require (nonempty c.rule_version) (validation_error "invalid grounded conclusion rule reference")

pub record GroundingResult : Type 0 where
  pub rule_id : String
  pub rule_version : String
  pub bindings : List (String × String)
  pub truth : EvaluationTruth
  pub conclusion : Option GroundedConclusion
  pub effective_dependencies : List String
  pub missing_reads : List MissingRead
  pub ambiguous_reads : List AmbiguousRead
  pub snapshot : String
  pub context : String
  pub grounding_evidence : String

unfoldable pub check_grounding_result : GroundingResult → Check
check_grounding_result r = do
  require (nonempty r.rule_version) (validation_error "invalid grounding rule reference")
  refuse (is_true r.truth && is_none r.conclusion)
      (validation_error "TRUE grounding requires a conclusion")
  refuse (not (is_true r.truth) && is_some r.conclusion)
      (validation_error "FALSE or UNKNOWN grounding cannot carry a conclusion")
  require (nonempty r.grounding_evidence)
      (validation_error "grounding requires an evidence witness")

pub data GroundingStatus : Type 0 where
  complete_for_declared_scope incomplete invalid : GroundingStatus

abbrev pub is_complete : GroundingStatus → Bool
is_complete complete_for_declared_scope = true
is_complete _ = false
