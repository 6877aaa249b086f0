-- ===== src/Witnesses/Studio.antt =====
-- A store with one decision scope: two paints for a wall, of which one is in the context and suits
-- the wall, and its cost is known.
mod Runs
mod Problems
use atlas_py.Json.{Json, array, cons, end, field, nil, object, text}
use atlas_py.Model.Discovery.{DiscoveryEvidence, evidence_schema, outside_context}
use atlas_py.Model.Grounding.{EvaluationTruth, GroundedConclusion, GroundingResult, fails, holds}
use atlas_py.Model.Knowledge.{Description, KnowledgeRecord, one, property, relation}
use atlas_py.Model.Scope.{DecisionGrounding, DecisionScope, GroundingObservation, current}
use atlas_py.Model.Snapshot.{Snapshot}
use atlas_py.Prelude.{List, Option, String, [], false, none, some, true, ◌∷◌}
use atlas_py.Prelude.Dict.{Dict, values}
use atlas_py.Prelude.Int.{pos}
use atlas_py.Problem.{GroundedDecisionProblem}
use atlas_py.Problem.Build.{cost_objective, problem_of}
use atlas_py.Scope.Discovery.{query_of}
use atlas_py.Scope.Evaluate.{observation_of, run_of}
use atlas_py.Store.{Store}
use atlas_py.Store.Dependencies.{provenance}
use atlas_py.Values.{finite_set_symbol, integer}
use atlas_py.Vocabulary.{PropertySpec}

abbrev trait : String → String → String → List String → KnowledgeRecord
trait ident description name values = property (record {
  id = ident;
  description = description;
  property = name;
  version = "1";
  value = finite_set_symbol values;
  scope = "site";
  epistemic_status = "exact";
  provenance = "src" ∷ [];
})

abbrev price_of_oil : KnowledgeRecord
price_of_oil = property (record {
  id = "price";
  description = "oil";
  property = "cost";
  version = "1";
  value = integer (pos 5);
  scope = "site";
  epistemic_status = "exact";
  provenance = "src" ∷ [];
})

abbrev realizes : String → String → String → KnowledgeRecord
realizes ident candidate place = relation (record {
  id = ident;
  predicate = "realizes";
  version = "1";
  participants = candidate ∷ "paint" ∷ [];
  polarity = "positive";
  scope = one place;
  epistemic_status = "exact";
  provenance = "src" ∷ [];
  derivation_id = none;
})

abbrev reads : String → String → Json
reads participant name = object (
    field "op" (text "property") (
      field "participant" (text participant)
        (field "property" (text name) (field "version" (text "1") end))))

abbrev parties : Json
parties = array (cons (text "candidate") (cons (text "request") nil))

abbrev suits_payload : Json
suits_payload = object (
    field "participants" parties (
      field "when"
        (object (
          field "op" (text "set_subset") (
            field "left" (reads "request" "needs")
              (field "right" (reads "candidate" "offers") end))))
        (field "head"
          (object (
            field "predicate" (text "suits") (
              field "version" (text "1")
                (field "participants" parties (field "polarity" (text "positive") end)))))
          end)))

abbrev pub studio_snapshot : Snapshot
studio_snapshot = record {
  id = "s1";
  parent = none;
  record_ids = "lime_in" ∷ "lime_offers" ∷ "oil_in" ∷ "oil_offers" ∷ "price" ∷ "wall_needs" ∷ [];
  predicate_versions = ("realizes", "1") ∷ ("suits", "1") ∷ [];
  property_versions = ("cost", "1") ∷ ("needs", "1") ∷ ("offers", "1") ∷ [];
  rule_versions = ("r", "1") ∷ [];
  context_ids = "c" ∷ [];
  context_definitions =
      record { id = "c"; visible_scopes = "site" ∷ []; enabled_rules = "r" ∷ [] } ∷ [];
  rule_definitions =
      record { id = "r"; version = "1"; payload = suits_payload; evaluation_supported = true } ∷ [];
  description_ids = "paint" ∷ "wall" ∷ "oil" ∷ "lime" ∷ [];
}

abbrev traits_spec : String → PropertySpec
traits_spec name = record {
  id = name;
  version = "1";
  value_kind = "finite_set<symbol>";
  cardinality = "multivalued";
}

abbrev pub choice : DecisionScope
choice = record {
  id = "d";
  snapshot = "s1";
  context = "c";
  intention = "paint";
  request = "wall";
  manifest = record {
    manifest_version = "m1-grounding/1";
    candidate_description_ids = "oil" ∷ "lime" ∷ [];
    prescribed_rule_ids = "r" ∷ [];
  };
  schema = current;
}

abbrev described : String → String × Description
described ident = (ident, record { id = ident; label = ident })

abbrev pub studio : Dict DecisionGrounding → Dict GroundedDecisionProblem → Store
studio groundings problems = record {
  closed = false;
  vocabulary = record {
    predicates =
        (
          ("realizes", "1"),
          record { id = "realizes"; version = "1"; arity = 2; roles = "p" ∷ "q" ∷ [] },
        )
        ∷ (
          ("suits", "1"),
          record { id = "suits"; version = "1"; arity = 2; roles = "p" ∷ "q" ∷ [] },
        )
        ∷ [];
    properties =
        (("needs", "1"), traits_spec "needs") ∷ (("offers", "1"), traits_spec "offers") ∷ [];
  };
  descriptions = described "paint" ∷ described "wall" ∷ described "oil" ∷ described "lime" ∷ [];
  sources = ("src", record { id = "src" }) ∷ [];
  rules =
      (
        "r",
        record { id = "r"; version = "1"; payload = suits_payload; evaluation_supported = true },
      )
      ∷ [];
  contexts =
      ("c", record { id = "c"; visible_scopes = "site" ∷ []; enabled_rules = "r" ∷ [] }) ∷ [];
  snapshots = ("s1", studio_snapshot) ∷ [];
  records =
      ("lime_in", realizes "lime_in" "lime" "elsewhere")
      ∷ ("lime_offers", trait "lime_offers" "lime" "offers" ("soft" ∷ []))
      ∷ ("oil_in", realizes "oil_in" "oil" "site")
      ∷ ("oil_offers", trait "oil_offers" "oil" "offers" ("dry" ∷ "gloss" ∷ []))
      ∷ ("price", price_of_oil)
      ∷ ("wall_needs", trait "wall_needs" "wall" "needs" ("dry" ∷ []))
      ∷ [];
  derivations = [];
  supersessions = [];
  decision_scopes = ("d", choice) ∷ [];
  decision_groundings = groundings;
  grounded_decision_problems = problems;
  decisions = [];
  isolated = [];
}

abbrev pub stamp : Json → String
stamp json = "seal"

abbrev result_of : String → EvaluationTruth → String → Option GroundedConclusion → GroundingResult
result_of candidate truth offer conclusion = record {
  rule_id = "r";
  rule_version = "1";
  bindings = ("candidate", candidate) ∷ ("request", "wall") ∷ [];
  truth = truth;
  conclusion = conclusion;
  effective_dependencies = "wall_needs" ∷ offer ∷ [];
  missing_reads = [];
  ambiguous_reads = [];
  snapshot = "s1";
  context = "c";
  grounding_evidence = "seal";
}

abbrev pub oil_result : GroundingResult
oil_result = result_of "oil" holds "oil_offers" (
    some (record {
      term = record { predicate = "suits"; version = "1"; participants = "oil" ∷ "wall" ∷ [] };
      polarity = "positive";
      epistemic_status = "exact";
      scope = one "site";
      provenance = "src" ∷ [];
      rule_id = "r";
      rule_version = "1";
      dependencies = "wall_needs" ∷ "oil_offers" ∷ [];
    }))

abbrev pub lime_result : GroundingResult
lime_result = result_of "lime" fails "lime_offers" none

abbrev pub oil_certificate : DiscoveryEvidence
oil_certificate = record {
  schema = evidence_schema;
  query = query_of "1" "oil" "paint";
  found = "oil_in" ∷ [];
  included = "oil_in" ∷ [];
  excluded = [];
}

abbrev pub lime_certificate : DiscoveryEvidence
lime_certificate = record {
  schema = evidence_schema;
  query = query_of "1" "lime" "paint";
  found = "lime_in" ∷ [];
  included = [];
  excluded = record { knowledge_id = "lime_in"; reason = outside_context } ∷ [];
}

abbrev pub observed : List GroundingObservation
observed =
    observation_of "oil" oil_certificate oil_result
    ∷ observation_of "lime" lime_certificate lime_result
    ∷ []

abbrev pub bare : Store
bare = studio [] []

abbrev pub paints : GroundedDecisionProblem
paints = problem_of choice "r" (cost_objective "1") (
    record {
      candidate = "oil";
      truth = holds;
      grounding_result = oil_result;
      exclusion_reason = none;
      objective_value = some (record {
        value = pos 5;
        knowledge_id = "price";
        property = "cost";
        version = "1";
        epistemic_status = "exact";
      });
    }
    ∷ record {
      candidate = "lime";
      truth = fails;
      grounding_result = lime_result;
      exclusion_reason = some "excluded_by_context";
      objective_value = none;
    }
    ∷ [])

-- The store with the grounding of the scope.
abbrev pub evaluated : Store
evaluated = studio (("d", run_of choice observed) ∷ []) []
