-- ===== src/Scope/Evaluate/Run.antt =====
-- scope.py: a run of `evaluate` observes each candidate of the manifest, and its own validation
-- accepts it.
use atlas_py.Rules.Ground
use atlas_py.Errors.{>>-eq-ok, >>=-eq-ok, AtlasError, Result, err, ok}
use atlas_py.Graph.Walk.{ok_injective}
use atlas_py.Json.{Json}
use atlas_py.Model.Discovery.{DiscoveryEvidence}
use atlas_py.Model.Grounding.{GroundingResult}
use atlas_py.Model.Scope.{DecisionScope, GroundingObservation, check_observation}
use atlas_py.Prelude.{
  List, Option, String, [], any, ap, arith, false, map, none, not, refl, some, sym, true, ◌∙◌, ◌∷◌,
  ◌≡◌,
}
use atlas_py.Scope.Discovery.{discover_relation}
use atlas_py.Scope.Evaluate.{
  checked_observation, failed_observation, grounding_message, observe, observe_each, recover,
  observation_of,
}
use atlas_py.Scope.Validate.Accepted.{bindings_of}
use atlas_py.Store.{Store}
use mathlib.Core.Path.{subst}

-- What one round of the loop observes: the certificate and the result of its candidate, or the
-- message of the grounding error that either raised.
pub data Observed (digest : Json → String) (s : Store) (scope : DecisionScope)
    (rule candidate : String) : GroundingObservation → Type 0 where
  grounded :
      (e : DiscoveryEvidence) (r : GroundingResult) (o : GroundingObservation)
      → discover_relation s scope candidate ≡ ok e
      → Ground.ground digest s rule (bindings_of scope candidate) scope.snapshot scope.context
        ≡ ok r
      → o ≡ observation_of candidate e r
      → Observed digest s scope rule candidate o
  failed :
      (message : String) (raised : AtlasError) (o : GroundingObservation)
      → observe digest s scope rule candidate ≡ err raised
      → grounding_message raised ≡ some message
      → o ≡ failed_observation candidate message
      → Observed digest s scope rule candidate o

checked_observation_ok : (o o' : GroundingObservation) → checked_observation o ≡ ok o' → o' ≡ o
unfolding checked_observation
checked_observation_ok o o' h =
    let (c, h1) = >>-eq-ok (check_observation o) h in sym (ok_injective h1)

module _ (digest : Json → String) (s : Store) (scope : DecisionScope) (rule : String) where
  observe-Observed :
      (candidate : String) (o : GroundingObservation)
      → observe digest s scope rule candidate ≡ ok o
      → Observed digest s scope rule candidate o
  unfolding observe
  observe-Observed candidate o h =
      let (e, found, h1) = >>=-eq-ok (discover_relation s scope candidate) _ h in
      let (r, made, h2) =
        >>=-eq-ok
          (Ground.ground digest s rule (bindings_of scope candidate) scope.snapshot scope.context) _
          h1 in
      Observed.grounded e r o found made (checked_observation_ok _ o h2)

  recover_failed :
      (candidate : String) (raised : AtlasError) (o : GroundingObservation)
      (message : Option String)
      → observe digest s scope rule candidate ≡ err raised
      → grounding_message raised ≡ message
      → (elim message [
        | none ↦ err raised
        | some m ↦ checked_observation (failed_observation candidate m)
      ])
        ≡ ok o
      → Observed digest s scope rule candidate o
  recover_failed candidate raised o none e m h = cc
  recover_failed candidate raised o (some message) e m h =
      Observed.failed message raised o e m (checked_observation_ok _ o h)

  recover-Observed :
      (candidate : String) (m : Result GroundingObservation) (o : GroundingObservation)
      → observe digest s scope rule candidate ≡ m
      → recover candidate m ≡ ok o
      → Observed digest s scope rule candidate o
  unfolding recover
  recover-Observed candidate (ok o') o e h = observe-Observed candidate o (e ∙ h)
  recover-Observed candidate (err raised) o e h =
      recover_failed candidate raised o (grounding_message raised) e refl h

  -- One observation for each candidate, in order.
  pub data EachObserved : List String → List GroundingObservation → Type 0 where
    done : EachObserved [] []
    next :
        {cs : List String} {os : List GroundingObservation} (c : String) (o : GroundingObservation)
        → Observed digest s scope rule c o
        → EachObserved cs os
        → EachObserved (c ∷ cs) (o ∷ os)

  pub observe_each-EachObserved :
      (cs : List String) (os : List GroundingObservation)
      → observe_each digest s scope rule cs ≡ ok os
      → EachObserved cs os
  unfolding observe_each
  observe_each-EachObserved [] os h = subst (EachObserved []) (ok_injective h) EachObserved.done
  observe_each-EachObserved (c ∷ cs) os h =
      let (o, e, h1) = >>=-eq-ok (recover c (observe digest s scope rule c)) _ h in
      let (rest, e2, h2) = >>=-eq-ok (observe_each digest s scope rule cs) _ h1 in
      subst (EachObserved (c ∷ cs)) (ok_injective h2) (
        EachObserved.next c o (recover-Observed c (observe digest s scope rule c) o refl e)
          (observe_each-EachObserved cs rest e2))

  Observed-candidate :
      {c : String} {o : GroundingObservation}
      → Observed digest s scope rule c o
      → (o.candidate ≡ c) × (o.traversed ≡ true)
  Observed-candidate (Observed.grounded e r o found made same) =
      (ap (λ x. x.candidate) same, ap (λ x. x.traversed) same)
  Observed-candidate (Observed.failed message raised o e m same) =
      (ap (λ x. x.candidate) same, ap (λ x. x.traversed) same)

  pub EachObserved-candidates :
      {cs : List String} {os : List GroundingObservation}
      → EachObserved cs os
      → (map (λ o. o.candidate) os ≡ cs) × (any (λ o. not o.traversed) os ≡ false)
  unfolding any
  EachObserved-candidates EachObserved.done = (refl, refl)
  EachObserved-candidates (EachObserved.next c o one' rest) =
      let (same, walked) = Observed-candidate one' in
      let (others, all_walked) = EachObserved-candidates rest in
      (ground (arith, same, others), ground (arith, walked, all_walked))
