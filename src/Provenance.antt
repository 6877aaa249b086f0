-- ===== src/Provenance.antt =====
-- src/atlas/provenance.py. The element type `SourceId` holds by typing, and a tuple is iterable.
use atlas_py.Prelude.{String, ◌≡◌, ◌∙◌, sym, true, List, contains}
use atlas_py.Prelude.Order.{
  sorted_set, ascending, contains-sorted_set, sorted_set-ascending, ascending_ext,
}

-- tuple(sorted(set(values), key=lambda source: source.value))
unfoldable pub canonical_provenance : List String → List String
canonical_provenance values = sorted_set values

-- The canonical form lists exactly the given sources, strictly ascending.
pub canonical_provenance_sorts :
    (xs : List String)
    → (ascending (canonical_provenance xs) ≡ true)
      × ((a : String) → contains (canonical_provenance xs) a ≡ contains xs a)
unfolding canonical_provenance
canonical_provenance_sorts xs = (sorted_set-ascending xs, contains-sorted_set xs)

-- Two provenances with the same sources, in any order and number, have one canonical form.
pub canonical_provenance_unique :
    (xs ys : List String)
    → ((a : String) → contains xs a ≡ contains ys a)
    → canonical_provenance xs ≡ canonical_provenance ys
unfolding canonical_provenance
canonical_provenance_unique xs ys same =
    ascending_ext (sorted_set xs) (sorted_set ys) (sorted_set-ascending xs)
      (sorted_set-ascending ys)
      λ a. contains-sorted_set xs a ∙ same a ∙ sym (contains-sorted_set ys a)
