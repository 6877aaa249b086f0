-- ===== src/Rules/Reads/Effective.antt =====
-- What the reads of a rule's condition leave in the state.
use mathlib.Core.Path.{subst}
use atlas_py.Prelude.{
  String, Bool, true, false, not, ◌&&◌, ◌||◌, ◌≡◌, refl, sym, ◌∙◌, ◌⊎◌, inl, Option, none, some,
  List, [], ◌∷◌, ◌++◌, map, ◌==◌, arith, eq_iff, is_empty, contains, contains-append, keep,
}
use atlas_py.Prelude.Dict.{values}
use atlas_py.Prelude.Texts.{◌<+>◌}
use atlas_py.Errors.{ok, grounding_error, require, >>=-eq-ok, >>-eq-ok}
use atlas_py.Identity.{identifier}
use atlas_py.Values.{nonempty}
use atlas_py.Vocabulary.{PropertySpec}
use atlas_py.Graph.Walk.{ok_injective}
use atlas_py.Model.Knowledge.{PropertyAssertion}
use atlas_py.Model.Snapshot.{Snapshot}
use atlas_py.Model.Grounding.{holds, unknown, is_unknown, AmbiguousRead}
use atlas_py.Store.{Store}
use atlas_py.Store.View.{effective_record_ids}
use atlas_py.Rules.{State, append_new, use_record, use_records, Outcome}
use atlas_py.Rules.Reads.{
  Read, answers, insert_by_id, sort_by_id, candidates, assertions, decide_read, fixes,
  find_property, read_property, is_finite_set,
}

-- No read was missing or ambiguous.
abbrev pub certain : State → Bool
certain st = is_empty st.missing && is_empty st.ambiguous

abbrev pub ids_of : List PropertyAssertion → List String
ids_of found = map (λ a. a.id) found

contains-insert_by_id :
    (a : PropertyAssertion) (found : List PropertyAssertion) (y : String)
    → contains (ids_of (insert_by_id a found)) y ≡ (a.id == y || contains (ids_of found) y)
unfolding insert_by_id contains
contains-insert_by_id a [] y = refl
contains-insert_by_id a (b ∷ rest) y = ground (arith, contains-insert_by_id a rest y)

contains-sort_by_id :
    (found : List PropertyAssertion) (y : String)
    → contains (ids_of (sort_by_id found)) y ≡ contains (ids_of found) y
unfolding sort_by_id contains
contains-sort_by_id [] y = refl
contains-sort_by_id (a ∷ rest) y =
    ground (arith, contains-sort_by_id rest y, contains-insert_by_id a (sort_by_id rest) y)

kept-effective :
    (s : Store) (effective scopes : List String) (r : Read) (found : List PropertyAssertion)
    (y : String)
    → contains (ids_of (keep (answers s effective scopes r) found)) y ≡ true
    → contains effective y ≡ true
unfolding keep answers contains
kept-effective s effective scopes r [] y h = cc
kept-effective s effective scopes r (a ∷ rest) y h =
    ground (arith, kept-effective s effective scopes r rest y, eq_iff a.id y)

candidates-effective :
    (s : Store) (effective scopes : List String) (r : Read) (y : String)
    → contains (ids_of (candidates s effective scopes r)) y ≡ true
    → contains effective y ≡ true
unfolding candidates
candidates-effective s effective scopes r y h =
    let found = assertions (values s.records) in
    kept-effective s effective scopes r found y
      (sym (contains-sort_by_id (keep (answers s effective scopes r) found) y) ∙ h)

contains-append_new :
    (xs : List String) (x y : String) → contains (append_new xs x) y ≡ (contains xs y || x == y)
unfolding append_new contains
contains-append_new xs x y = ground (arith, contains-append xs (x ∷ []) y, eq_iff x y)

is_empty-append : {A : Type 0} (xs : List A) (x : A) → is_empty (xs ++ x ∷ []) ≡ false
is_empty-append [] x = refl
is_empty-append (y ∷ xs) x = refl

use_records-certain :
    (found : List PropertyAssertion) (st : State) → certain (use_records st found) ≡ certain st
unfolding use_records use_record
use_records-certain [] st = refl
use_records-certain (a ∷ rest) st = use_records-certain rest (use_record st a)

contains-use_records :
    (found : List PropertyAssertion) (st : State) (y : String)
    → contains (use_records st found).dependencies y
      ≡ (contains st.dependencies y || contains (ids_of found) y)
unfolding use_records use_record contains
contains-use_records [] st y = ground arith
contains-use_records (a ∷ rest) st y = ground (
  arith,
  contains-use_records rest (use_record st a) y,
  contains-append_new st.dependencies a.id y,
)

-- An outcome is unknown exactly when a read was missing or ambiguous, and it depends on nothing new
-- but effective records.
abbrev pub Accounts : List String → State → Outcome → Type 0
Accounts effective st o =
    (certain o.state ≡ (certain st && not (is_unknown o.truth)))
    × ((y : String)
        → contains o.state.dependencies y ≡ true
        → (contains st.dependencies y ≡ true) ⊎ (contains effective y ≡ true))

use_record-Accounts :
    (effective : List String) (st : State) (a : PropertyAssertion)
    → ((y : String) → contains (ids_of (a ∷ [])) y ≡ true → contains effective y ≡ true)
    → Accounts effective st
        (record { truth = holds; value = some a.value; state = use_record st a })
unfolding use_record contains
use_record-Accounts effective st a all =
    (ground arith, λ y m. ground (arith, contains-append_new st.dependencies a.id y, all y))

abbrev with_ambiguous : State → AmbiguousRead → State
with_ambiguous st read = record st { ambiguous = st.ambiguous ++ read ∷ [] }

ambiguous-Accounts :
    (effective : List String) (st : State) (found : List PropertyAssertion) (read : AmbiguousRead)
    → ((y : String) → contains (ids_of found) y ≡ true → contains effective y ≡ true)
    → Accounts effective st (record {
      truth = unknown;
      value = none;
      state = use_records (with_ambiguous st read) found;
    })
ambiguous-Accounts effective st found read all = (
  use_records-certain found (with_ambiguous st read)
      ∙ ground (arith, is_empty-append st.ambiguous read),
  λ y m. ground (arith, contains-use_records found (with_ambiguous st read) y, all y),
)

decide_read-Accounts :
    (effective : List String) (spec : PropertySpec) (r : Read) (st : State)
    (found : List PropertyAssertion) (o : Outcome)
    → ((y : String) → contains (ids_of found) y ≡ true → contains effective y ≡ true)
    → decide_read spec r st found ≡ ok o
    → Accounts effective st o
unfolding decide_read
decide_read-Accounts effective spec r st [] o all h =
    subst (Accounts effective st) (ok_injective h)
      (ground (arith, is_empty-append st.missing _), λ y m. inl m)
decide_read-Accounts effective spec r st (a ∷ []) o all h =
    let (kind, h1) =
      >>-eq-ok
        (require (spec.value_kind == "finite_set<symbol>" && is_finite_set a.value)
          (grounding_error "property value is incompatible with this operator"))
        h in
    let (exact, h2) =
      >>-eq-ok
        (require (a.epistemic_status == "exact") (
          grounding_error
            ("M1b.1 does not support property epistemic status '" <+> a.epistemic_status <+> "'")))
        h1 in
    subst (Accounts effective st) (ok_injective h2)
      (use_record-Accounts effective st a (λ y m. all y m))
decide_read-Accounts effective spec r st (a ∷ b ∷ rest) o all h =
    subst (Accounts effective st) (ok_injective h)
      (ambiguous-Accounts effective st (a ∷ b ∷ rest) _ all)

pub read_property-Accounts :
    (s : Store) (snapshot : Snapshot) (scopes effective : List String) (st : State)
    (r : Option Read) (o : Outcome)
    → effective_record_ids s snapshot.id ≡ ok effective
    → read_property s snapshot scopes st r ≡ ok o
    → Accounts effective st o
unfolding read_property
read_property-Accounts s snapshot scopes effective st none o e h = cc
read_property-Accounts s snapshot scopes effective st (some r) o e h =
    let (named, h1) = >>-eq-ok (identifier r.property) h in
    let (fixed, h2) =
      >>-eq-ok
        (require (nonempty r.version && fixes snapshot.property_versions r.property r.version)
          (grounding_error "property version is outside the requested snapshot"))
        h1 in
    let (spec, found, h3) = >>=-eq-ok (find_property s r.property r.version) _ h2 in
    let (ids, e', h4) = >>=-eq-ok (effective_record_ids s snapshot.id) _ h3 in
    decide_read-Accounts effective spec r st (candidates s effective scopes r) o
      (candidates-effective s effective scopes r)
      (subst (λ l. decide_read spec r st (candidates s l scopes r) ≡ ok o)
        (ok_injective (sym e' ∙ e)) h4)
