-- ===== src/Problem/Build/Rule.antt =====
-- scope.py and problem.py: the rule that the environment of a scope fixes is the one definition that
-- the validation of a problem looks for.
use atlas_py.Errors.{>>-eq-ok, >>=-eq-ok, expect, ok, refuse, require, require-true}
use atlas_py.Graph.Walk.{ok_injective}
use atlas_py.Model.Knowledge.{Rule}
use atlas_py.Model.Scope.{DecisionScope, is_current}
use atlas_py.Model.Snapshot.{RuleDefinition, Snapshot}
use atlas_py.Prelude.{
  Bool-cases, List, Option-cases, String, [], all, ap, arith, contains, distinct, eq_iff, false,
  inl, inr, is_empty, keep, map, refl, some, some_injective, sym, true, ◌&&◌, ◌==◌, ◌∙◌, ◌∷◌, ◌≡◌,
}
use atlas_py.Prelude.Dict.{Dict, get, get-put_other, get-put_self, has, put}
use atlas_py.Scope.{
  agrees_with, check_environment, check_final_rules, fixed_rules, is_final_rule, same_version,
  validate_manifest, validate_scope_environment,
}
use atlas_py.Store.{Store}
use mathlib.Core.Path.{subst}

abbrev pub rule_ids : List RuleDefinition → List String
rule_ids rs = map (λ r. r.id) rs

fixed_rules-absent :
    (rs : List RuleDefinition) (d : Dict String) (k : String)
    → contains (rule_ids rs) k ≡ false
    → (get (fixed_rules d rs) k ≡ get d k) × (keep (λ r. r.id == k) rs ≡ [])
unfolding fixed_rules contains keep
fixed_rules-absent [] d k h = (refl, refl)
fixed_rules-absent (r ∷ rs) d k h =
    let (same, none_of) = fixed_rules-absent rs (put d r.id r.version) k (ground arith) in
    (same ∙ get-put_other d r.id k r.version (ground arith), ground (arith, none_of))

-- The version that is fixed for a rule is that of its one definition.
pub fixed_rules_one :
    (rs : List RuleDefinition) (d : Dict String) (k : String)
    → distinct (rule_ids rs) ≡ true
    → contains (rule_ids rs) k ≡ true
    → (r : RuleDefinition) × (keep (λ x. x.id == k) rs ≡ r ∷ [])
      × (get (fixed_rules d rs) k ≡ some r.version)
unfolding fixed_rules contains keep distinct
fixed_rules_one [] d k unique h = cc
fixed_rules_one (r ∷ rs) d k unique h = elim (Bool-cases (r.id == k)) [
  | inl here ↦
      let same : r.id ≡ k = (eq_iff r.id k).0 here in
      let (rest, none_of) =
        fixed_rules-absent rs (put d r.id r.version) k
          (subst (λ z. contains (rule_ids rs) z ≡ false) same (ground (arith, unique))) in
      (
        r,
        ground (arith, here, none_of),
        rest
            ∙ subst (λ z. get (put d r.id r.version) z ≡ some r.version) same
                (get-put_self d r.id r.version),
      )
  | inr there ↦
      let (r', one', fixed) =
        fixed_rules_one rs (put d r.id r.version) k (ground (arith, unique))
          (ground (arith, there, h)) in
      (r', ground (arith, there, one'), fixed)
]

check_final_rules-one :
    (s : Store) (fixed : Dict String) (rule : String)
    → check_final_rules s fixed (rule ∷ []) ≡ ok tt
    → is_final_rule s fixed rule ≡ true
unfolding check_final_rules
check_final_rules-one s fixed rule h =
    let (final, h1) = >>-eq-ok (require (is_final_rule s fixed rule) _) h in require-true _ final

final_rule :
    (s : Store) (fixed : Dict String) (rule : String)
    → is_final_rule s fixed rule ≡ true
    → (active : Rule) × (version : String) × (get s.rules rule ≡ some active)
      × (get fixed rule ≡ some version)
      × ((version == active.version) ≡ true)
unfolding is_final_rule same_version
final_rule s fixed rule h = elim (Option-cases (get s.rules rule)) [
  | inl absent ↦ let never : ⊥ = ground (arith, absent, h) in elim never [ ]
  | inr (active, e) ↦ elim (Option-cases (get fixed rule)) [
    | inl absent ↦ let never : ⊥ = ground (arith, absent, e, h) in elim never [ ]
    | inr (version, e') ↦ (active, version, e, e', ground (arith, e, e', h))
  ]
]

-- The environment of a scope with one rule: the historical definition is the active one.
pub record FixedRule (s : Store) (snapshot : Snapshot) (rule : String) : Type 0 where
  pub definition : RuleDefinition
  pub active : Rule
  pub alone : keep (λ x. x.id == rule) snapshot.rule_definitions ≡ definition ∷ []
  pub stored : get s.rules rule ≡ some active
  pub agrees : (definition.version == active.version) ≡ true

pub fixed_rule :
    (s : Store) (snapshot : Snapshot) (rule : String)
    → distinct (rule_ids snapshot.rule_definitions) ≡ true
    → check_final_rules s (fixed_rules [] snapshot.rule_definitions) (rule ∷ []) ≡ ok tt
    → FixedRule s snapshot rule
unfolding get
fixed_rule s snapshot rule unique h =
    let rs = snapshot.rule_definitions in
    let (active, version, stored, fixed, same) =
      final_rule s (fixed_rules [] rs) rule (check_final_rules-one s (fixed_rules [] rs) rule h) in
    elim (Bool-cases (contains (rule_ids rs) rule)) [
      | inl listed ↦
          let (definition, alone, found) = fixed_rules_one rs [] rule unique listed in
          record {
            definition = definition;
            active = active;
            alone = alone;
            stored = stored;
            agrees =
                subst (λ v. (v == active.version) ≡ true) (some_injective (sym fixed ∙ found)) same;
          }
      | inr unlisted ↦
          let (rest, none_of) = fixed_rules-absent rs [] rule unlisted in
          let never : ⊥ = cc (sym fixed ∙ rest) in elim never [ ]
    ]

-- The rules of the environment have passed their test.
pub environment_rules :
    (s : Store) (scope : DecisionScope) (snapshot : Snapshot)
    → get s.snapshots scope.snapshot ≡ some snapshot
    → validate_scope_environment s scope ≡ ok tt
    → check_final_rules s
        (fixed_rules [] snapshot.rule_definitions)
        scope.manifest.prescribed_rule_ids
      ≡ ok tt
unfolding validate_scope_environment check_environment expect
environment_rules s scope snapshot stored h =
    let (versioned, h1) = >>-eq-ok (validate_manifest scope.manifest) h in
    let (context, e2, h2) =
      >>=-eq-ok
        (expect "decision scope context is absent from final contexts"
          (get s.contexts scope.context))
        _ h1 in
    let (sn, e3, h3) =
      >>=-eq-ok (expect "decision scope snapshot does not exist" (get s.snapshots scope.snapshot)) _
        h2 in
    let same : sn ≡ snapshot =
      ok_injective (sym e3 ∙ ap (expect "decision scope snapshot does not exist") stored) in
    let (a, h4) = >>-eq-ok (require (contains sn.context_ids scope.context) _) h3 in
    let (b, h5) =
      >>-eq-ok
        (require (agrees_with context (keep (λ x. x.id == scope.context) sn.context_definitions)) _)
        h4 in
    let (c, h6) = >>-eq-ok (require (contains sn.description_ids scope.intention) _) h5 in
    let (d, h7) =
      >>-eq-ok (refuse (is_current scope.schema && scope.intention == scope.request) _) h6 in
    let (e, h8) = >>-eq-ok (require (contains sn.description_ids scope.request) _) h7 in
    let (f, h9) =
      >>-eq-ok
        (require (all (contains sn.description_ids) scope.manifest.candidate_description_ids) _)
        h8 in
    let (g, h10) = >>-eq-ok (refuse (is_empty scope.manifest.prescribed_rule_ids) _) h9 in
    let (i, h11) =
      >>-eq-ok
        (require (all (has (fixed_rules [] sn.rule_definitions)) scope.manifest.prescribed_rule_ids)
          _)
        h10 in
    subst
      (λ z.
        check_final_rules s (fixed_rules [] z.rule_definitions) scope.manifest.prescribed_rule_ids
        ≡ ok tt)
      same h11
