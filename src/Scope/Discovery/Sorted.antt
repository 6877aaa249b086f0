-- ===== src/Scope/Discovery/Sorted.antt =====
-- scope.py: the relations that match a query, sorted by identity: their order and their members.
use atlas_py.Model.Discovery.{DiscoveryQuery}
use atlas_py.Model.Knowledge.{RelationAssertion}
use atlas_py.Prelude.{
  Bool, List, String, [], all, any, arith, contains, distinct, eq_iff, false, keep, not, refl, true,
  ◌&&◌, ◌==◌, ◌||◌, ◌∙◌, ◌∷◌, ◌≡◌,
}
use atlas_py.Prelude.Dict.{values}
use atlas_py.Prelude.Order.{ascending, text_lt, text_lt_irrefl, text_lt_total, text_lt_trans}
use atlas_py.Scope.Discovery.{
  insert_relation, is_visible, matches_query, relation_ids, relation_matches, relations,
  sort_relations,
}
use atlas_py.Store.{Store}

contains-insert_relation :
    (a : RelationAssertion) (found : List RelationAssertion) (y : String)
    → contains (relation_ids (insert_relation a found)) y
      ≡ (a.id == y || contains (relation_ids found) y)
unfolding insert_relation contains
contains-insert_relation a [] y = refl
contains-insert_relation a (b ∷ rest) y = ground (arith, contains-insert_relation a rest y)

contains-sort_relations :
    (found : List RelationAssertion) (y : String)
    → contains (relation_ids (sort_relations found)) y ≡ contains (relation_ids found) y
unfolding sort_relations contains
contains-sort_relations [] y = refl
contains-sort_relations (a ∷ rest) y =
    ground
      (arith, contains-sort_relations rest y, contains-insert_relation a (sort_relations rest) y)

contains-keep-any :
    (p : RelationAssertion → Bool) (found : List RelationAssertion) (y : String)
    → contains (relation_ids (keep p found)) y ≡ any (λ a. a.id == y && p a) found
unfolding contains keep any
contains-keep-any p [] y = refl
contains-keep-any p (a ∷ found) y = ground (arith, contains-keep-any p found y)

-- Sorted, an identity may stand more than once.
unfoldable pub weakly_ascending : List String → Bool
weakly_ascending [] = true
weakly_ascending (x ∷ xs) = all (λ y. not (text_lt y x)) xs && weakly_ascending xs

all-insert_relation :
    (p : String → Bool) (a : RelationAssertion) (found : List RelationAssertion)
    → p a.id ≡ true
    → all p (relation_ids found) ≡ true
    → all p (relation_ids (insert_relation a found)) ≡ true
unfolding insert_relation all
all-insert_relation p a [] h k = ground arith
all-insert_relation p a (b ∷ found) h k = ground (arith, all-insert_relation p a found)

-- What does not lie below `x` does not lie below what is not above `x`.
all-not_lt_trans :
    (a b : String) (ys : List String)
    → text_lt b a ≡ false
    → all (λ y. not (text_lt y b)) ys ≡ true
    → all (λ y. not (text_lt y a)) ys ≡ true
unfolding all
all-not_lt_trans a b [] h k = refl
all-not_lt_trans a b (y ∷ ys) h k = ground (
  arith,
  all-not_lt_trans a b ys,
  text_lt_trans y a b,
  text_lt_total a b,
  text_lt_trans b y a,
  text_lt_total y b,
  eq_iff a b,
)

text_lt_asym : (a b : String) → text_lt a b ≡ true → text_lt b a ≡ false
text_lt_asym a b h = ground (arith, text_lt_trans a b a, text_lt_irrefl a)

insert_relation-weakly_ascending :
    (a : RelationAssertion) (found : List RelationAssertion)
    → weakly_ascending (relation_ids found) ≡ true
    → weakly_ascending (relation_ids (insert_relation a found)) ≡ true
unfolding weakly_ascending insert_relation all
insert_relation-weakly_ascending a [] h = refl
insert_relation-weakly_ascending a (b ∷ found) h = ground (
  arith,
  insert_relation-weakly_ascending a found,
  all-insert_relation (λ y. not (text_lt y b.id)) a found,
  all-not_lt_trans a.id b.id (relation_ids found),
  text_lt_asym b.id a.id,
)

sort_relations-weakly_ascending :
    (found : List RelationAssertion) → weakly_ascending (relation_ids (sort_relations found)) ≡ true
unfolding sort_relations weakly_ascending
sort_relations-weakly_ascending [] = refl
sort_relations-weakly_ascending (a ∷ found) =
    insert_relation-weakly_ascending a (sort_relations found)
      (sort_relations-weakly_ascending found)

all-strict :
    (x : String) (ys : List String)
    → all (λ y. not (text_lt y x)) ys ≡ true
    → contains ys x ≡ false
    → all (text_lt x) ys ≡ true
unfolding all contains
all-strict x [] h k = refl
all-strict x (y ∷ ys) h k = ground (arith, all-strict x ys, text_lt_total x y, eq_iff y x)

pub distinct-ascending :
    (ys : List String) → weakly_ascending ys ≡ true → distinct ys ≡ true → ascending ys ≡ true
unfolding weakly_ascending distinct ascending
distinct-ascending [] h k = refl
distinct-ascending (y ∷ ys) h k = ground (arith, distinct-ascending ys, all-strict y ys)

pub matches-weakly_ascending :
    (s : Store) (effective : List String) (q : DiscoveryQuery)
    → weakly_ascending (relation_ids (relation_matches s effective q)) ≡ true
unfolding relation_matches
matches-weakly_ascending s effective q =
    sort_relations-weakly_ascending
      (keep (matches_query s effective q) (relations (values s.records)))

any-insert_relation :
    (p : RelationAssertion → Bool) (a : RelationAssertion) (found : List RelationAssertion)
    → any p (insert_relation a found) ≡ (p a || any p found)
unfolding any insert_relation
any-insert_relation p a [] = refl
any-insert_relation p a (b ∷ found) = ground (arith, any-insert_relation p a found)

any-sort_relations :
    (p : RelationAssertion → Bool) (found : List RelationAssertion)
    → any p (sort_relations found) ≡ any p found
unfolding any sort_relations
any-sort_relations p [] = refl
any-sort_relations p (a ∷ found) =
    ground (arith, any-sort_relations p found, any-insert_relation p a (sort_relations found))

any-keep :
    (p q : RelationAssertion → Bool) (found : List RelationAssertion)
    → any p (keep q found) ≡ any (λ a. p a && q a) found
unfolding any keep
any-keep p q [] = refl
any-keep p q (a ∷ found) = ground (arith, any-keep p q found)

any_ext :
    (p q : RelationAssertion → Bool) (found : List RelationAssertion)
    → ((a : RelationAssertion) → p a ≡ q a)
    → any p found ≡ any q found
unfolding any
any_ext p q [] same = refl
any_ext p q (a ∷ found) same = ground (arith, any_ext p q found same, same a)

pub contains-relation_matches :
    (s : Store) (effective : List String) (q : DiscoveryQuery) (y : String)
    → contains (relation_ids (relation_matches s effective q)) y
      ≡ any (λ a. a.id == y && matches_query s effective q a) (relations (values s.records))
unfolding relation_matches
contains-relation_matches s effective q y =
    let known = relations (values s.records) in
    contains-sort_relations (keep (matches_query s effective q) known) y
    ∙ contains-keep-any (matches_query s effective q) known y

pub contains-visible_matches :
    (s : Store) (effective visible : List String) (q : DiscoveryQuery) (y : String)
    → contains (relation_ids (keep (is_visible visible) (relation_matches s effective q))) y
      ≡ any
          (λ a. a.id == y && (matches_query s effective q a && is_visible visible a))
          (relations (values s.records))
unfolding relation_matches
contains-visible_matches s effective visible q y =
    let known = relations (values s.records) in
    let matches = matches_query s effective q in
    let shown : RelationAssertion → Bool = λ a. a.id == y && is_visible visible a in
    contains-keep-any (is_visible visible) (sort_relations (keep matches known)) y
    ∙ any-sort_relations shown (keep matches known)
    ∙ any-keep shown matches known
    ∙ any_ext _ _ known (λ a. regroup (a.id == y) (is_visible visible a) (matches a))
  where
    regroup : (p v m : Bool) → ((p && v) && m) ≡ (p && (m && v))
    regroup p v m = ground arith
