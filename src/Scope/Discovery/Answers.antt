-- ===== src/Scope/Discovery/Answers.antt =====
-- scope.py: the relations that answer the query of a discovery, by their fields.
use mathlib.Core.List.{Memᴰ}
use mathlib.Core.List.Memᴰ.{head, tail}
use mathlib.Core.Path.{subst}
use atlas_py.Model.Knowledge.{KnowledgeRecord, RelationAssertion, property, relation, scope_set}
use atlas_py.Prelude.{
  Bool, List, String, [], ap, arith, contains, eq_iff, false, keep, refl, true, ◌&&◌, ◌==◌, ◌∷◌,
  ◌≡◌, ◌↔◌,
}
use atlas_py.Prelude.Dict.{values}
use atlas_py.Prelude.Members.{any_iff}
use atlas_py.Rules.Reads.{is_isolated}
use atlas_py.Scope.Discovery.{
  is_visible, matches_query, query_of, relation_ids, relation_matches, relations,
}
use atlas_py.Scope.Discovery.Sorted.{contains-relation_matches, contains-visible_matches}
use atlas_py.Store.{Store}
use atlas_py.Vocabulary.Growth.{same_texts_iff}

-- A relation of the store which is effective and not isolated and says, in this version of
-- `realizes`, that the candidate realizes the intention.
pub record Realizes (s : Store) (effective : List String) (version candidate intention : String)
    (a : RelationAssertion) : Type 0 where
  pub known : Memᴰ (relation a) (values s.records)
  pub is_effective : contains effective a.id ≡ true
  pub not_isolated : ¬ Memᴰ ("relation", a.id) s.isolated
  pub predicate : a.predicate ≡ "realizes"
  pub same_version : a.version ≡ version
  pub participants : a.participants ≡ candidate ∷ intention ∷ []
  pub polarity : a.polarity ≡ "positive"

-- One of the scopes of a relation is visible.
abbrev pub Shown : List String → RelationAssertion → Type 0
Shown visible a = (x : String) × Memᴰ x (scope_set a.scope) × (contains visible x ≡ true)

relation_known :
    (a : RelationAssertion) (rs : List KnowledgeRecord)
    → Memᴰ a (relations rs)
    → Memᴰ (relation a) rs
unfolding relations
relation_known a [] m = elim m [ ]
relation_known a (property b ∷ rs) m = tail (relation_known a rs m)
relation_known a (relation b ∷ rs) (head e) = head (ap relation e)
relation_known a (relation b ∷ rs) (tail m) = tail (relation_known a rs m)

known_relation :
    (a : RelationAssertion) (rs : List KnowledgeRecord)
    → Memᴰ (relation a) rs
    → Memᴰ a (relations rs)
unfolding relations
known_relation a [] m = elim m [ ]
known_relation a (property b ∷ rs) (head e) = cc
known_relation a (property b ∷ rs) (tail m) = known_relation a rs m
known_relation a (relation b ∷ rs) (head e) = head (cc)
known_relation a (relation b ∷ rs) (tail m) = tail (known_relation a rs m)

is_isolated_iff :
    (s : Store) (kind ident : String)
    → (is_isolated s kind ident ≡ true) ↔ Memᴰ (kind, ident) s.isolated
unfolding is_isolated
is_isolated_iff s kind ident =
    let (there, back) = any_iff (λ (x : String × String). x.0 == kind && x.1 == ident) s.isolated in
    (
      λ h. let (x, m, e) = there h in subst (λ z. Memᴰ z s.isolated) (pair_eq x.0 x.1 e) m,
      λ m. back ((kind, ident), m, ground (arith, eq_iff kind kind, eq_iff ident ident)),
    )
  where
    pair_eq :
        (x y : String)
        → (x == kind && y == ident) ≡ true
        → ◌≡◌ {A = String × String} (x, y) (kind, ident)
    pair_eq x y h = ground (arith, eq_iff x kind, eq_iff y ident)

module _ (s : Store) (effective : List String) (version candidate intention : String) where
  matches_query-Realizes :
      (a : RelationAssertion)
      → Memᴰ (relation a) (values s.records)
      → matches_query s effective (query_of version candidate intention) a ≡ true
      → Realizes s effective version candidate intention a
  unfolding matches_query
  matches_query-Realizes a m h = record {
    known = m;
    is_effective = ground (arith, h);
    not_isolated = λ i. ground (arith, h, (is_isolated_iff s "relation" a.id).1 i);
    predicate = ground (arith, h, eq_iff a.predicate "realizes");
    same_version = ground (arith, h, eq_iff a.version version);
    participants = ground (arith, h, same_texts_iff a.participants (candidate ∷ intention ∷ []));
    polarity = ground (arith, h, eq_iff a.polarity "positive");
  }

  Realizes-matches_query :
      (a : RelationAssertion)
      → Realizes s effective version candidate intention a
      → matches_query s effective (query_of version candidate intention) a ≡ true
  unfolding matches_query
  Realizes-matches_query a r =
      let free =
        not_true (is_isolated s "relation" a.id)
          (λ i. r.not_isolated ((is_isolated_iff s "relation" a.id).0 i)) in
      let parts = (same_texts_iff a.participants (candidate ∷ intention ∷ [])).1 r.participants in
      ground (
        arith,
        free,
        parts,
        r.is_effective,
        r.predicate,
        r.same_version,
        r.polarity,
        eq_iff a.predicate "realizes",
        eq_iff a.version version,
        eq_iff a.polarity "positive",
      )
    where
      not_true : (b : Bool) → ¬ (b ≡ true) → b ≡ false
      not_true true h = absurd (h refl)
      not_true false h = refl

  -- An identity is found exactly if a relation that realizes the intention has it.
  pub found_iff :
      (y : String)
      → (contains
            (relation_ids (relation_matches s effective (query_of version candidate intention)))
            y
          ≡ true)
        ↔ ((a : RelationAssertion) × (a.id ≡ y)
            × Realizes s effective version candidate intention a)
  found_iff y =
      let q = query_of version candidate intention in
      let (there, back) =
        any_iff (λ (a : RelationAssertion). a.id == y && matches_query s effective q a)
          (relations (values s.records)) in
      rw (contains-relation_matches s effective q y) (
        λ h.
            let (a, m, e) = there h in
            (
              a,
              ground (arith, e, eq_iff a.id y),
              matches_query-Realizes a (relation_known a (values s.records) m) (ground (arith, e)),
            ),
        λ (a, same, r). back (
          a,
          known_relation a (values s.records) r.known,
          ground (arith, Realizes-matches_query a r, same, eq_iff a.id y),
        ),
      )

  is_visible_iff :
      (visible : List String) (a : RelationAssertion)
      → (is_visible visible a ≡ true) ↔ Shown visible a
  unfolding is_visible
  is_visible_iff visible a = any_iff (contains visible) (scope_set a.scope)

  pub included_iff :
      (visible : List String) (y : String)
      → (contains
            (relation_ids (
              keep
                (is_visible visible)
                (relation_matches s effective (query_of version candidate intention))))
            y
          ≡ true)
        ↔ ((a : RelationAssertion) × (a.id ≡ y)
            × Realizes s effective version candidate intention a
            × Shown visible a)
  included_iff visible y =
      let q = query_of version candidate intention in
      let (there, back) =
        any_iff
          (λ (a : RelationAssertion).
            a.id == y && (matches_query s effective q a && is_visible visible a))
          (relations (values s.records)) in
      rw (contains-visible_matches s effective visible q y) (
        λ h.
            let (a, m, e) = there h in
            (
              a,
              ground (arith, e, eq_iff a.id y),
              matches_query-Realizes a (relation_known a (values s.records) m) (ground (arith, e)),
              (is_visible_iff visible a).0 (ground (arith, e)),
            ),
        λ (a, same, r, v). back (
          a,
          known_relation a (values s.records) r.known,
          ground (
            arith,
            Realizes-matches_query a r,
            (is_visible_iff visible a).1 v,
            same,
            eq_iff a.id y,
          ),
        ),
      )
