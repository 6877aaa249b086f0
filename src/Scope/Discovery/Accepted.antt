-- ===== src/Scope/Discovery/Accepted.antt =====
-- scope.py: the validation of discovery evidence accepts what the discovery certifies.
use atlas_py.Errors.{>>=-of_ok, expect, ok, require-pass, require-of_true}
use atlas_py.Graph.Walk.{ok_injective}
use atlas_py.Model.Discovery.{DiscoveryEvidence, DiscoveryQuery, excluded_ids}
use atlas_py.Model.Scope.{DecisionScope, GroundingObservation}
use atlas_py.Model.Snapshot.{ContextDefinition}
use atlas_py.Prelude.{
  List, String, [], any, ap, arith, eq_iff, eq_refl, keep, refl, some, sym, true, ◌&&◌, ◌==◌, ◌∙◌,
  ◌∷◌, ◌≡◌,
}
use atlas_py.Scope.Discovery.{
  check_discovered, check_discovery, discover_relation, first_context, is_one_version, query_eq,
  same_certificate, the_discovery_version, validate_discovery,
}
use atlas_py.Scope.Discovery.Partition.{DiscoveryRun, discover_relation-DiscoveryRun}
use atlas_py.Store.{Store}
use atlas_py.Values.{same_texts, same_texts_refl}
use mathlib.Core.Path.{subst}
use atlas_py.Rules.Ground.Bound.{get_of_subscript}

query_eq_refl : (q : DiscoveryQuery) → query_eq q q ≡ true
unfolding query_eq
query_eq_refl q = ground (
  arith,
  same_texts_refl q.participants,
  eq_refl q.kind,
  eq_refl q.predicate,
  eq_refl q.version,
  eq_refl q.polarity,
)

same_certificate_refl : (e : DiscoveryEvidence) → same_certificate e e ≡ true
unfolding same_certificate
same_certificate_refl e = ground (
  arith,
  query_eq_refl e.query,
  same_texts_refl e.found,
  same_texts_refl e.included,
  same_texts_refl (excluded_ids e),
)

one_version :
    (vs : List (String × String)) (version : String)
    → the_discovery_version vs ≡ ok version
    → is_one_version vs version ≡ true
unfolding the_discovery_version is_one_version
one_version [] version h = cc
one_version (v ∷ []) version h = ground (arith, eq_iff v.1 version, ok_injective h)
one_version (v ∷ w ∷ vs) version h = cc

first_context-any :
    (cs : List ContextDefinition) (ident : String) (c : ContextDefinition)
    → first_context cs ident ≡ ok c
    → any (λ x. x.id == ident) cs ≡ true
unfolding first_context any
first_context-any [] ident c h = cc
first_context-any (x ∷ cs) ident c h = ground (arith, first_context-any cs ident c)

module _ (s : Store) (scope : DecisionScope) (candidate : String) (e : DiscoveryEvidence)
    (returned : discover_relation s scope candidate ≡ ok e) where
  check_discovery_accepts :
      (run : DiscoveryRun s scope candidate e)
      → check_discovery s scope candidate e run.snapshot ≡ ok tt
  unfolding check_discovery
  check_discovery_accepts run =
      let made = run.certified in
      require-pass _
        (subst (λ x. same_texts x.query.participants (candidate ∷ scope.intention ∷ []) ≡ true)
          (sym made) (same_texts_refl (candidate ∷ scope.intention ∷ [])))
        (require-pass _
          (subst
            (λ x.
              is_one_version (keep (λ v. v.0 == x.query.predicate) run.snapshot.predicate_versions)
                x.query.version
              ≡ true)
            (sym made) (one_version _ run.version run.unique))
          (require-pass _
            (subst (λ x. (x.query.predicate == "realizes" && x.query.polarity == "positive") ≡ true)
              (sym made) refl)
            (require-pass _ (first_context-any _ scope.context run.context run.fixed)
              (>>=-of_ok _ returned (require-of_true _ (same_certificate_refl e))))))

  -- The validation of an observation accepts the certificate that the discovery of its candidate
  -- returned.
  pub validate_discovery_accepts :
      (o : GroundingObservation)
      → o.candidate ≡ candidate
      → o.discovery_evidence ≡ some e
      → validate_discovery s scope o ≡ ok tt
  unfolding validate_discovery check_discovered expect
  validate_discovery_accepts o same carried =
      let run = discover_relation-DiscoveryRun s scope candidate e returned in
      ap (check_discovered s scope o.candidate) carried
      ∙ ap (λ c. check_discovered s scope c (some e)) same
      ∙ >>=-of_ok _
          (ap (expect "discovery query bindings disagree with scope")
            (get_of_subscript _ _ run.snapshot run.stored))
          (check_discovery_accepts run)
