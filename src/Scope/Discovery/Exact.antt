-- ===== src/Scope/Discovery/Exact.antt =====
-- scope.py: which relations of the store a discovery finds, and which of them it includes.
use mathlib.Core.List.{Memᴰ}
use mathlib.Core.List.Memᴰ.{eq_of_singleton, head}
use mathlib.Core.Path.{subst}
use atlas_py.Errors.{ok}
use atlas_py.Graph.Walk.{ok_injective}
use atlas_py.Model.Discovery.{DiscoveryEvidence}
use atlas_py.Model.Knowledge.{RelationAssertion}
use atlas_py.Model.Scope.{DecisionScope}
use atlas_py.Model.Snapshot.{ContextDefinition, Snapshot}
use atlas_py.Prelude.{
  Bool, List, String, [], ap, arith, contains, eq_iff, keep, refl, sym, true, ◌==◌, ◌∙◌, ◌∷◌, ◌≡◌,
  ◌↔◌,
}
use atlas_py.Prelude.Members.{keep_iff}
use atlas_py.Scope.Discovery.{
  certificate, discover_relation, first_context, query_of, relation_matches, the_discovery_version,
}
use atlas_py.Scope.Discovery.Answers.{Realizes, Shown, found_iff, included_iff}
use atlas_py.Scope.Discovery.Partition.{discover_relation-DiscoveryRun}
use atlas_py.Store.{Store, subscript}
use atlas_py.Store.View.{effective_record_ids}

one_version :
    (found : List (String × String)) (version : String)
    → the_discovery_version found ≡ ok version
    → (x : String × String) × (found ≡ x ∷ []) × (x.1 ≡ version)
unfolding the_discovery_version
one_version [] version h = cc
one_version (x ∷ []) version h = (x, refl, ok_injective h)
one_version (x ∷ y ∷ found) version h = cc

-- The version that is fixed is the only one of the predicate.
the_version_iff :
    (versions : List (String × String)) (version v : String)
    → the_discovery_version (keep (λ x. x.0 == "realizes") versions) ≡ ok version
    → Memᴰ ("realizes", v) versions ↔ (v ≡ version)
the_version_iff versions version v h =
    let named : String × String → Bool = λ x. x.0 == "realizes" in
    let (x, only, same) = one_version (keep named versions) version h in
    let (there, is_named) =
      (keep_iff named x versions).0 (subst (λ l. Memᴰ x l) (sym only) (head refl)) in
    (
      λ m.
          ap (λ (z : String × String). z.1)
            (eq_of_singleton (
              subst (λ l. Memᴰ ("realizes", v) l) only
                ((keep_iff named ("realizes", v) versions).1
                  (m, (eq_iff "realizes" "realizes").1 refl))))
          ∙ same,
      λ e. subst (λ z. Memᴰ z versions) (named_pair x.0 x.1 is_named (same ∙ sym e)) there,
    )
  where
    named_pair :
        (x y : String)
        → (x == "realizes") ≡ true
        → y ≡ v
        → ◌≡◌ {A = String × String} (x, y) ("realizes", v)
    named_pair x y h e = ground (arith, eq_iff x "realizes")

-- A discovery that returns read the one version of `realizes` in the snapshot. Given the context of
-- the scope in the snapshot and the effective records there: an identity is found exactly if it is
-- that of a relation of the store which is effective and not isolated and says positively, in that
-- version, that the candidate realizes the intention of the scope; and it is included exactly if,
-- besides, one of the scopes of such a relation is visible from the context.
pub discover_relation_exact :
    (s : Store) (scope : DecisionScope) (candidate : String) (e : DiscoveryEvidence)
    (snapshot : Snapshot) (context : ContextDefinition) (effective : List String)
    → discover_relation s scope candidate ≡ ok e
    → subscript s.snapshots scope.snapshot ≡ ok snapshot
    → first_context snapshot.context_definitions scope.context ≡ ok context
    → effective_record_ids s snapshot.id ≡ ok effective
    → (v y : String)
    → (Memᴰ ("realizes", v) snapshot.predicate_versions ↔ (v ≡ e.query.version))
      × ((contains e.found y ≡ true) ↔ (
          (a : RelationAssertion) × (a.id ≡ y)
          × Realizes s effective e.query.version candidate scope.intention a))
      × ((contains e.included y ≡ true) ↔ (
          (a : RelationAssertion) × (a.id ≡ y)
          × Realizes s effective e.query.version candidate scope.intention a
          × Shown context.visible_scopes a))
discover_relation_exact s scope candidate e snapshot context effective returned stored fixed seen v
      y =
    let run = discover_relation-DiscoveryRun s scope candidate e returned in
    let sn : run.snapshot ≡ snapshot = ok_injective (sym run.stored ∙ stored) in
    let cx : run.context ≡ context =
      ok_injective
        (sym run.fixed ∙ ap (λ z. first_context z.context_definitions scope.context) sn ∙ fixed) in
    let ef : run.effective ≡ effective =
      ok_injective (sym run.seen ∙ ap (λ z. effective_record_ids s z.id) sn ∙ seen) in
    let q = query_of run.version candidate scope.intention in
    let made : e ≡ certificate q context.visible_scopes (relation_matches s effective q) =
      run.certified
      ∙ ap (λ z. certificate q z.visible_scopes (relation_matches s run.effective q)) cx
      ∙ ap (λ z. certificate q context.visible_scopes (relation_matches s z q)) ef in
    let unique =
      subst
        (λ z.
          the_discovery_version (keep (λ x. x.0 == "realizes") z.predicate_versions)
          ≡ ok run.version)
        sn run.unique in
    subst
      (λ x.
        (Memᴰ ("realizes", v) snapshot.predicate_versions ↔ (v ≡ x.query.version))
        × ((contains x.found y ≡ true) ↔ (
            (a : RelationAssertion) × (a.id ≡ y)
            × Realizes s effective x.query.version candidate scope.intention a))
        × ((contains x.included y ≡ true) ↔ (
            (a : RelationAssertion) × (a.id ≡ y)
            × Realizes s effective x.query.version candidate scope.intention a
            × Shown context.visible_scopes a)))
      (sym made)
      (
        the_version_iff snapshot.predicate_versions run.version v unique,
        found_iff s effective run.version candidate scope.intention y,
        included_iff s effective run.version candidate scope.intention context.visible_scopes y,
      )
