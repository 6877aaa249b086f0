-- ===== src/Scope/Created.antt =====
-- store.py: `create_decision_scope`, what it stores and what it refuses.
use atlas_py.Errors.{
  >>-eq-ok, >>=-eq-ok, >>-of_ok, admission_error, err, expect, ok, refuse, refuse-false,
  refuse-raises, ◌>>=◌, require, require-true,
}
use atlas_py.Graph.Walk.{ok_injective}
use atlas_py.Model.Knowledge.{Context, Rule}
use atlas_py.Model.Scope.{DecisionScope, GroundingManifest, check_manifest, current, is_current}
use atlas_py.Model.Snapshot.{Snapshot}
use atlas_py.Prelude.{
  Bool, List, String, [], all, ap, arith, contains, eq_iff, false, inl, inr, is_empty, is_some,
  none, Option, Option-cases, refl, some, sym, true, ◌&&◌, ◌==◌, ◌∙◌, ◌∷◌, ◌≡◌, ◌≢◌,
}
use atlas_py.Prelude.Dict.{Dict, get, get-put_other, get-put_self, has}
use atlas_py.Problem.Access.{decision_scope}
use atlas_py.Scope.{
  check_environment, check_final_rules, create_decision_scope, declared_scope, fixed_rules,
  agrees_with, is_final_rule, same_version, validate_manifest, validate_scope_environment,
  with_scope,
}
use atlas_py.Store.{Store, check_open}
use mathlib.Core.Path.{subst}

-- What a scope names stands in its snapshot, its intention is not its request, and its rules have
-- in the store the version that the snapshot fixes.
pub record IsDeclarable (s : Store) (scope : DecisionScope) : Type 0 where
  pub fixed : Snapshot
  pub stored : get s.snapshots scope.snapshot ≡ some fixed
  pub in_context : contains fixed.context_ids scope.context ≡ true
  pub apart : scope.intention ≢ scope.request
  pub holds_intention : contains fixed.description_ids scope.intention ≡ true
  pub holds_request : contains fixed.description_ids scope.request ≡ true
  pub holds_candidates :
      (c : String)
      → contains scope.manifest.candidate_description_ids c ≡ true
      → contains fixed.description_ids c ≡ true
  pub final_rules :
      (r : String)
      → contains scope.manifest.prescribed_rule_ids r ≡ true
      → (rule : Rule) × (get s.rules r ≡ some rule)
        × (get (fixed_rules [] fixed.rule_definitions) r ≡ some rule.version)

all-contains :
    (p : String → Bool) (xs : List String) (c : String)
    → all p xs ≡ true
    → contains xs c ≡ true
    → p c ≡ true
unfolding all contains
all-contains p [] c h m = cc
all-contains p (x ∷ xs) c h m = ground (arith, all-contains p xs c, eq_iff x c)

is_final_rule-versions :
    (s : Store) (versions : Dict String) (r : String)
    → is_final_rule s versions r ≡ true
    → (rule : Rule) × (get s.rules r ≡ some rule) × (get versions r ≡ some rule.version)
unfolding is_final_rule same_version
is_final_rule-versions s versions r h = elim (Option-cases (get s.rules r)) [
  | inl e ↦ cc (rw (e, is_final_rule) at h)
  | inr (rule, e) ↦ (rule, e, same_version-eq (get versions r) rule (rw (e, is_final_rule) at h))
]
  where
    same_version-eq :
        (v : Option String) (rule : Rule) → same_version v rule ≡ true → v ≡ some rule.version
    same_version-eq none rule h = cc
    same_version-eq (some v) rule h = ap some ((eq_iff v rule.version).0 h)

check_final_rules-each :
    (s : Store) (versions : Dict String) (rs : List String) (r : String)
    → check_final_rules s versions rs ≡ ok tt
    → contains rs r ≡ true
    → is_final_rule s versions r ≡ true
unfolding check_final_rules contains
check_final_rules-each s versions [] r h m = cc
check_final_rules-each s versions (x ∷ rs) r h m =
    ground (arith, check_final_rules-each s versions rs r, eq_iff x r)

check_environment-IsDeclarable :
    (s : Store) (scope : DecisionScope) (context : Context) (snapshot : Snapshot)
    → is_current scope.schema ≡ true
    → get s.snapshots scope.snapshot ≡ some snapshot
    → check_environment s scope context snapshot ≡ ok tt
    → IsDeclarable s scope
unfolding check_environment
check_environment-IsDeclarable s scope context snapshot modern stored h =
    let (in_context, h1) = >>-eq-ok (require (contains snapshot.context_ids scope.context) _) h in
    let (agrees, h2) = >>-eq-ok (require (agrees_with context _) _) h1 in
    let (intention, h3) =
      >>-eq-ok (require (contains snapshot.description_ids scope.intention) _) h2 in
    let (apart, h4) =
      >>-eq-ok (refuse (is_current scope.schema && scope.intention == scope.request) _) h3 in
    let (request, h5) = >>-eq-ok (require (contains snapshot.description_ids scope.request) _) h4 in
    let (candidates, h6) =
      >>-eq-ok
        (require (all (contains snapshot.description_ids) scope.manifest.candidate_description_ids)
          _)
        h5 in
    let (prescribed, h7) = >>-eq-ok (refuse (is_empty scope.manifest.prescribed_rule_ids) _) h6 in
    let (fixes, final) = >>-eq-ok (require (all _ scope.manifest.prescribed_rule_ids) _) h7 in
    let versions = fixed_rules [] snapshot.rule_definitions in
    record {
      fixed = snapshot;
      stored = stored;
      in_context = require-true _ in_context;
      apart = λ same.
          ground (arith, refuse-false _ apart, modern, same, eq_iff scope.intention scope.request);
      holds_intention = require-true _ intention;
      holds_request = require-true _ request;
      holds_candidates = λ c m.
          all-contains (contains snapshot.description_ids) scope.manifest.candidate_description_ids
            c (require-true _ candidates) m;
      final_rules = λ r m.
          is_final_rule-versions s versions r
            (check_final_rules-each s versions scope.manifest.prescribed_rule_ids r final m);
    }

validate_environment-IsDeclarable :
    (s : Store) (scope : DecisionScope)
    → is_current scope.schema ≡ true
    → validate_scope_environment s scope ≡ ok tt
    → IsDeclarable s scope
unfolding validate_scope_environment expect
validate_environment-IsDeclarable s scope modern h =
    let (versioned, h1) = >>-eq-ok (validate_manifest scope.manifest) h in
    let (context, e2, h2) =
      >>=-eq-ok
        (expect "decision scope context is absent from final contexts"
          (get s.contexts scope.context))
        (λ c.
          expect "decision scope snapshot does not exist" (get s.snapshots scope.snapshot)
          >>= check_environment s scope c)
        h1 in
    let (snapshot, e3, h3) =
      >>=-eq-ok (expect "decision scope snapshot does not exist" (get s.snapshots scope.snapshot))
        (check_environment s scope context) h2 in
    check_environment-IsDeclarable s scope context snapshot modern
      (expect-some _ (get s.snapshots scope.snapshot) snapshot e3) h3
  where
    expect-some :
        (message : String) (o : Option Snapshot) (v : Snapshot)
        → expect message o ≡ ok v
        → o ≡ some v
    expect-some message none v h = cc
    expect-some message (some w) v h = ap some (ok_injective h)

module _ (s after : Store) (ident snapshot context intention request : String)
    (manifest : GroundingManifest) (scope : DecisionScope)
    (created : create_decision_scope s ident snapshot context intention request manifest
      ≡ ok (after, scope)) where
  -- The steps of a creation.
  admitted_scope :
      (check_open s ≡ ok tt)
      × (validate_scope_environment s
            (declared_scope ident snapshot context intention request manifest)
          ≡ ok tt)
      × (after ≡ with_scope s (declared_scope ident snapshot context intention request manifest))
      × (scope ≡ declared_scope ident snapshot context intention request manifest)
  unfolding create_decision_scope
  admitted_scope =
      let (is_open, h1) = >>-eq-ok (check_open s) created in
      let (listed, h2) = >>-eq-ok (check_manifest manifest) h1 in
      let (fresh, h3) = >>-eq-ok (refuse (has s.decision_scopes ident) _) h2 in
      let (versioned, h4) = >>-eq-ok (validate_manifest manifest) h3 in
      let (environment, h5) = >>-eq-ok (validate_scope_environment s _) h4 in
      let done = sym (ok_injective h5) in
      (is_open, environment, ap (λ r. r.0) done, ap (λ r. r.1) done)

refuses_again :
    (s : Store) (scope : DecisionScope) (snapshot context intention request : String)
    (manifest : GroundingManifest)
    → check_open s ≡ ok tt
    → check_manifest manifest ≡ ok tt
    → create_decision_scope
        (with_scope s scope)
        scope.id
        snapshot
        context
        intention
        request
        manifest
      ≡ err (admission_error "duplicate decision scope identity")
unfolding create_decision_scope check_open
refuses_again s scope snapshot context intention request manifest is_open listed =
    >>-of_ok is_open (
      >>-of_ok listed
        (refuse-raises _ _ (ap is_some (get-put_self s.decision_scopes scope.id scope))))

-- A scope that is created has the current schema, its intention is not its request, what it names
-- stands in its snapshot, and its rules are those of the store in the versions of the snapshot. In
-- the store right after, it is read back under its identity, the other scopes are as before, and a
-- creation under the same identity with a manifest that passes its own checks is refused as a
-- duplicate.
pub create_decision_scope_once :
    (s after : Store) (ident snapshot context intention request : String)
    (manifest : GroundingManifest) (scope : DecisionScope)
    → create_decision_scope s ident snapshot context intention request manifest ≡ ok (after, scope)
    → (snapshot2 context2 intention2 request2 other : String) (manifest2 : GroundingManifest)
    → check_manifest manifest2 ≡ ok tt
    → (ident == other) ≡ false
    → (scope.schema ≡ current)
      × IsDeclarable s scope
      × (decision_scope after ident ≡ ok scope)
      × (get after.decision_scopes other ≡ get s.decision_scopes other)
      × (create_decision_scope after ident snapshot2 context2 intention2 request2 manifest2
          ≡ err (admission_error "duplicate decision scope identity"))
unfolding decision_scope check_open expect
create_decision_scope_once s after ident snapshot context intention request manifest scope created
      snapshot2 context2 intention2 request2 other manifest2 sound apart =
    let made = declared_scope ident snapshot context intention request manifest in
    let (is_open, environment, stored, same) =
      admitted_scope s after ident snapshot context intention request manifest scope created in
    (
      ap (λ (z : DecisionScope). z.schema) same,
      subst (IsDeclarable s) (sym same) (validate_environment-IsDeclarable s made refl environment),
      ap (λ z. decision_scope z ident) stored
          ∙ >>-of_ok is_open
              (ap (expect "unknown decision scope") (get-put_self s.decision_scopes ident made))
          ∙ ap ok (sym same),
      ap (λ z. get z.decision_scopes other) stored
          ∙ get-put_other s.decision_scopes ident other made apart,
      ap (λ z. create_decision_scope z ident snapshot2 context2 intention2 request2 manifest2)
            stored
          ∙ refuses_again s made snapshot2 context2 intention2 request2 manifest2 is_open sound,
    )
