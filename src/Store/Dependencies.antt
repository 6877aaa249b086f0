-- ===== src/Store/Dependencies.antt =====
-- store.py: the dependencies and the provenance of knowledge, and `_decision_dependency_closure`.
pub mod Reachability
use atlas_py.Prelude.{
  String, Bool, true, false, Option, none, some, List, [], ◌∷◌, ◌++◌, suc, length, if◌then◌else◌,
}
use atlas_py.Prelude.Dict.{Dict, get, has, keys}
use atlas_py.Errors.{Result, ok, err, grounding_error, require, ◌>>=◌, ◌>>◌}
use atlas_py.Graph.{visit_all}
use atlas_py.Provenance.{canonical_provenance}
use atlas_py.Model.Knowledge.{KnowledgeRecord, record_provenance}
use atlas_py.Model.Grounding.{GroundingResult}
use atlas_py.Model.Discovery.{DiscoveryEvidence}
use atlas_py.Model.Scope.{DecisionGrounding, GroundingObservation}
use atlas_py.Problem.{GroundedCandidate, GroundedDecisionProblem, ObjectiveValue}
use atlas_py.Store.{Store, check_open, subscript}

-- self.derivations[ident].dependencies if ident in self.derivations else ()
unfoldable pub derivation_inputs : Store → String → List String
derivation_inputs s ident = elim (get s.derivations ident) [ none ↦ [] | some d ↦ d.dependencies ]

-- Store.dependencies(knowledge_id)
unfoldable pub direct_dependencies : Store → String → Result (List String)
direct_dependencies s ident = do
  check_open s
  require (has s.records ident) (grounding_error "unknown knowledge identity")
  ok (derivation_inputs s ident)

-- Store.dependencies(knowledge_id, transitive=True); every node that has dependencies is a key of
-- the derivations, so the walk has more fuel than nodes with successors.
unfoldable pub transitive_dependencies : Store → String → Result (List String)
transitive_dependencies s ident = do
  direct ← direct_dependencies s ident
  visit_all (direct_dependencies s) (suc (length s.derivations)) direct

-- evidence.included, for the observations that have evidence
unfoldable pub included_evidence : List GroundingObservation → List String
included_evidence [] = []
included_evidence (o ∷ os) =
    let rest = included_evidence os in
    elim o.discovery_evidence [ none ↦ rest | some evidence ↦ evidence.included ++ rest ]

unfoldable pub grounding_reads : Option DecisionGrounding → List String
grounding_reads none = []
grounding_reads (some g) = included_evidence g.observations

unfoldable pub candidate_reads : List GroundedCandidate → List String
candidate_reads [] = []
candidate_reads (c ∷ cs) =
    let rest = candidate_reads cs in
    c.grounding_result.effective_dependencies
    ++ (elim c.objective_value [ none ↦ rest | some v ↦ v.knowledge_id ∷ rest ])

-- `direct`: what the decision read
unfoldable pub decision_reads : Store → GroundedDecisionProblem → List String
decision_reads s p =
    grounding_reads (get s.decision_groundings p.scope_id) ++ candidate_reads p.candidates

-- Store._decision_dependency_closure
unfoldable pub decision_dependency_closure : Store → GroundedDecisionProblem → Result (List String)
decision_dependency_closure s p =
    visit_all (λ ident. ok (derivation_inputs s ident)) (suc (length s.derivations))
      (decision_reads s p)

unfoldable pub found_record : Option KnowledgeRecord → Result KnowledgeRecord
found_record none = err (grounding_error "unknown knowledge identity")
found_record (some r) = ok r

-- The sources of the records, a KeyError where one is absent.
unfoldable pub record_sources : Store → List String → Result (List String)
record_sources s [] = ok []
record_sources s (x ∷ xs) = do
  found ← subscript s.records x
  rest ← record_sources s xs
  ok (record_provenance found ++ rest)

-- The ids whose sources are added to the record's own.
unfoldable pub provenance_inputs : Store → String → Bool → Result (List String)
provenance_inputs s ident transitive = if transitive then transitive_dependencies s ident else ok []

-- Store.provenance
unfoldable pub provenance : Store → String → Bool → Result (List String)
provenance s ident transitive = do
  check_open s
  found ← found_record (get s.records ident)
  inputs ← provenance_inputs s ident transitive
  sources ← record_sources s inputs
  ok (canonical_provenance (record_provenance found ++ sources))
