-- ===== src/Witnesses/Catalog.antt =====
-- Vocabularies, provenances, and lists of participants.
use atlas_py.Prelude.{
  String, ◌≡◌, refl, Bool, true, false, Option, none, some, List, [], ◌∷◌, ◌++◌, ◌==◌, contains,
  distinct, arith,
}
use atlas_py.Prelude.Order.{ascending}
use atlas_py.Errors.{ok}
use atlas_py.Vocabulary.{PredicateSpec, PropertySpec, Vocabulary, Key, find, configure}
use atlas_py.Vocabulary.Growth.{configure-kept}
use atlas_py.Provenance.{
  canonical_provenance, canonical_provenance_sorts, canonical_provenance_unique,
}
use atlas_py.Store.Unique.{seems_unique, seems_unique-concat}

abbrev fits : PredicateSpec
fits = record { id = "fits"; version = "1"; arity = 2; roles = "part" ∷ "slot" ∷ [] }

abbrev width : PropertySpec
width = record { id = "width"; version = "1"; value_kind = "integer"; cardinality = "multivalued" }

abbrev first_edition : Vocabulary
first_edition = record { predicates = (("fits", "1"), fits) ∷ []; properties = [] }

abbrev second_edition : Vocabulary
second_edition = record {
  predicates = (("fits", "1"), fits) ∷ [];
  properties = (("width", "1"), width) ∷ [];
}

extends : configure first_edition (fits ∷ []) (width ∷ []) ≡ ok second_edition
unfolding configure atlas_py.Vocabulary.add_predicates atlas_py.Vocabulary.add_entries
    atlas_py.Vocabulary.check_predicate atlas_py.Prelude.all distinct
    atlas_py.Vocabulary.check_conflict find atlas_py.Vocabulary.predicate_eq
    atlas_py.Values.same_texts atlas_py.Vocabulary.add_properties atlas_py.Vocabulary.check_property
    atlas_py.Vocabulary.assign
extends = refl

configure-kept_example :
    ((k : Key) (s : PredicateSpec)
      → find first_edition.predicates k ≡ some s
      → find second_edition.predicates k ≡ some s)
    × ((k : Key) (s : PropertySpec)
        → find first_edition.properties k ≡ some s
        → find second_edition.properties k ≡ some s)
configure-kept_example =
    configure-kept first_edition second_edition (fits ∷ []) (width ∷ []) extends

sorts : canonical_provenance ("b" ∷ "a" ∷ "b" ∷ "A" ∷ []) ≡ "A" ∷ "a" ∷ "b" ∷ []
unfolding canonical_provenance atlas_py.Prelude.Order.sorted_set
    atlas_py.Prelude.Order.insert_sorted atlas_py.Prelude.Order.text_lt
sorts = refl

canonical_provenance_sorts_example :
    (ascending (canonical_provenance ("b" ∷ "a" ∷ "b" ∷ [])) ≡ true)
    × ((a : String)
        → contains (canonical_provenance ("b" ∷ "a" ∷ "b" ∷ [])) a
          ≡ contains ("b" ∷ "a" ∷ "b" ∷ []) a)
canonical_provenance_sorts_example = canonical_provenance_sorts ("b" ∷ "a" ∷ "b" ∷ [])

same_sources : (a : String) → contains ("b" ∷ "a" ∷ "b" ∷ []) a ≡ contains ("a" ∷ "b" ∷ []) a
unfolding contains
same_sources a = ground arith

canonical_provenance_unique_example :
    canonical_provenance ("b" ∷ "a" ∷ "b" ∷ []) ≡ canonical_provenance ("a" ∷ "b" ∷ [])
canonical_provenance_unique_example =
    canonical_provenance_unique ("b" ∷ "a" ∷ "b" ∷ []) ("a" ∷ "b" ∷ []) same_sources

-- Two equal participants pass for unique.
seems_unique-concat_example : seems_unique (("a" ∷ []) ++ "a" ∷ []) ≡ distinct ("a" ∷ [])
seems_unique-concat_example = seems_unique-concat ("a" ∷ []) "a"
