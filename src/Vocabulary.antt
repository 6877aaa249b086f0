-- ===== src/Vocabulary.antt =====
-- src/atlas/vocabulary.py: the versioned predicates and properties. A dictionary keyed by
-- (identity, version) is an association list; an assignment to a present key keeps its place.
pub mod Growth
use atlas_py.Prelude.{
  ℕ, String, Bool, not, ◌&&◌, ◌||◌, Option, none, some, List, [], ◌∷◌, ◌==◌, all, distinct, length,
  nat_eq, if◌then◌else◌,
}
use atlas_py.Prelude.Order.{text_lt}
use atlas_py.Errors.{
  Check, Result, ok, err, validation_error, admission_error, require, refuse, ◌>>=◌, ◌>>◌,
}
use atlas_py.Values.{nonempty, same_texts}

pub record PredicateSpec : Type 0 where
  pub id : String
  pub version : String
  pub arity : ℕ
  pub roles : List String

unfoldable pub check_predicate : PredicateSpec → Check
check_predicate p = do
  require (nat_eq (length p.roles) p.arity) (validation_error "invalid predicate vocabulary")
  require (nonempty p.version && all nonempty p.roles)
      (validation_error "vocabulary text must be exact and valid Unicode")
  require (distinct p.roles) (validation_error "predicate roles must be unique")

-- _vocab_text
abbrev pub vocab_text : String → Check
vocab_text s =
    require (nonempty s) (validation_error "vocabulary text must be exact and valid Unicode")

pub record PropertySpec : Type 0 where
  pub id : String
  pub version : String
  pub value_kind : String
  pub cardinality : String

abbrev pub is_value_kind : String → Bool
is_value_kind k =
    k == "symbol" || k == "integer" || k == "finite_set<symbol>" || k == "sequence<symbol>"

unfoldable pub check_property : PropertySpec → Check
check_property p = do
  require (is_value_kind p.value_kind) (validation_error "invalid property vocabulary")
  vocab_text p.version
  require (p.cardinality == "multivalued") (validation_error "invalid property cardinality")

abbrev pub Key : Type 0
Key = String × String

abbrev pub key_eq : Key → Key → Bool
key_eq a b = a.0 == b.0 && a.1 == b.1

module _ {ℓ} {V : Type ℓ} where
  -- entries.get(key)
  unfoldable pub find : List (Key × V) → Key → Option V
  find [] k = none
  find ((j, v) ∷ es) k = if key_eq j k then some v else find es k

  -- entries[key] = value
  unfoldable pub assign : List (Key × V) → Key → V → List (Key × V)
  assign [] k v = (k, v) ∷ []
  assign ((j, w) ∷ es) k v = if key_eq j k then (j, v) ∷ es else (j, w) ∷ assign es k v

pub record Vocabulary : Type 0 where
  pub predicates : List (Key × PredicateSpec)
  pub properties : List (Key × PropertySpec)

unfoldable pub predicate_eq : PredicateSpec → PredicateSpec → Bool
predicate_eq a b =
    a.id == b.id && a.version == b.version && nat_eq a.arity b.arity && same_texts a.roles b.roles

unfoldable pub property_eq : PropertySpec → PropertySpec → Bool
property_eq a b =
    a.id == b.id
    && a.version == b.version
    && a.value_kind == b.value_kind
    && a.cardinality == b.cardinality

-- if key in entries and entries[key] != new: raise
unfoldable pub check_conflict {ℓ} : {V : Type ℓ} → (V → V → Bool) → Option V → V → String → Check
check_conflict same none new message = ok tt
check_conflict same (some old) new message = require (same old new) (admission_error message)

-- The body of the two loops of `Store.configure_vocabulary`. The items are decoded from JSON before
-- they come here, and `check` is their constructor's.
module _ {ℓ} {V : Type ℓ} (key : V → Key) (check : V → Check) (same : V → V → Bool)
    (message : String) where
  unfoldable pub add_entries : List (Key × V) → List V → Result (List (Key × V))
  add_entries es [] = ok es
  add_entries es (p ∷ ps) = do
    check p
    check_conflict same (find es (key p)) p message
    add_entries (assign es (key p) p) ps

unfoldable pub add_predicates :
    List (Key × PredicateSpec) → List PredicateSpec → Result (List (Key × PredicateSpec))
add_predicates =
    add_entries (λ p. (p.id, p.version)) check_predicate predicate_eq
      "conflicting predicate identity/version"

unfoldable pub add_properties :
    List (Key × PropertySpec) → List PropertySpec → Result (List (Key × PropertySpec))
add_properties =
    add_entries (λ p. (p.id, p.version)) check_property property_eq
      "conflicting property identity/version"

-- The candidate that `configure_vocabulary` publishes.
unfoldable pub configure : Vocabulary → List PredicateSpec → List PropertySpec → Result Vocabulary
configure v ps qs = do
  predicates ← add_predicates v.predicates ps
  properties ← add_properties v.properties qs
  ok (record { predicates = predicates; properties = properties })

-- if ident not in latest or version > latest[ident]: latest[ident] = version
unfoldable pub newer : List (String × String) → String → String → List (String × String)
newer [] ident version = (ident, version) ∷ []
newer ((i, v) ∷ es) ident version =
    if i == ident
    then (i, if text_lt v version then version else v) ∷ es
    else (i, v) ∷ newer es ident version

-- Older versions of an identity stay in the vocabulary; a snapshot fixes one, that which is last in
-- the order of texts.
unfoldable pub latest_versions : List (String × String) → List Key → List (String × String)
latest_versions latest [] = latest
latest_versions latest ((ident, version) ∷ es) = latest_versions (newer latest ident version) es
