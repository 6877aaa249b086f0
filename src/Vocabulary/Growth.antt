-- ===== src/Vocabulary/Growth.antt =====
-- The vocabulary is append-only.
use mathlib.Core.Path.{subst}
use atlas_py.Graph.Walk.{ok_injective}
use atlas_py.Prelude.{
  String, ◌≡◌, ◌↔◌, refl, ap, sym, Bool, true, false, some, List, [], ◌∷◌, arith, eq_iff,
  Bool-cases, inl, inr, if◌then◌else◌,
}
use atlas_py.Errors.{Check, ok, admission_error, require, ◌>>=◌, ◌>>◌, >>=-eq-ok}
use atlas_py.Values.{same_texts, same_texts_refl}
use atlas_py.Vocabulary.{
  PredicateSpec, PropertySpec, check_predicate, check_property, Key, key_eq, find, assign,
  Vocabulary, predicate_eq, property_eq, check_conflict, add_entries, add_predicates,
  add_properties, configure,
}

pub same_texts→eq : (xs ys : List String) → same_texts xs ys ≡ true → xs ≡ ys
unfolding same_texts
same_texts→eq [] [] h = refl
same_texts→eq [] (y ∷ ys) h = cc
same_texts→eq (x ∷ xs) [] h = cc
same_texts→eq (x ∷ xs) (y ∷ ys) h = ground (arith, eq_iff x y, same_texts→eq xs ys)

pub same_texts_iff : (xs ys : List String) → (same_texts xs ys ≡ true) ↔ (xs ≡ ys)
same_texts_iff xs ys =
    (same_texts→eq xs ys, λ e. subst (λ z. same_texts xs z ≡ true) e (same_texts_refl xs))

predicate_eq→eq : (a b : PredicateSpec) → predicate_eq a b ≡ true → a ≡ b
unfolding predicate_eq
predicate_eq→eq a b h =
    ground (arith, eq_iff a.id b.id, eq_iff a.version b.version, same_texts→eq a.roles b.roles)

property_eq→eq : (a b : PropertySpec) → property_eq a b ≡ true → a ≡ b
unfolding property_eq
property_eq→eq a b h = ground (
  arith,
  eq_iff a.id b.id,
  eq_iff a.version b.version,
  eq_iff a.value_kind b.value_kind,
  eq_iff a.cardinality b.cardinality,
)

pub find-assign {ℓ} :
    {V : Type ℓ} (es : List (Key × V)) (j k : Key) (v : V)
    → find (assign es j v) k ≡ (if key_eq j k then some v else find es k)
unfolding find assign
find-assign [] j k v = refl
find-assign ((i, w) ∷ es) j k v = ground (
  arith,
  find-assign es j k v,
  eq_iff i.0 j.0,
  eq_iff i.1 j.1,
  eq_iff i.0 k.0,
  eq_iff i.1 k.1,
  eq_iff j.0 k.0,
  eq_iff j.1 k.1,
)

-- One admitted item changes no entry that was there, and is there afterwards.
find-assign_kept {ℓ} :
    {V : Type ℓ} (same : V → V → Bool) (sound : (a b : V) → same a b ≡ true → a ≡ b)
    (es : List (Key × V)) (j k : Key) (v w : V) (message : String)
    → check_conflict same (find es j) v message ≡ ok tt
    → find es k ≡ some w
    → find (assign es j v) k ≡ some w
unfolding check_conflict
find-assign_kept same sound es j k v w message checked found = elim (Bool-cases (key_eq j k)) [
  | inr other ↦ rw (find-assign, other) found
  | inl same_key ↦
      let e : find es j ≡ some w = rw (key_eq→eq j k same_key) found in
      rw (find-assign, same_key)
        (ap some (sym (sound w v (require-true (same w v) (rw e at checked)))))
]
  where
    key_eq→eq : (a b : Key) → key_eq a b ≡ true → a ≡ b
    key_eq→eq a b h = ground (arith, eq_iff a.0 b.0, eq_iff a.1 b.1)

    require-true : (b : Bool) → require b (admission_error message) ≡ ok tt → b ≡ true
    require-true true h = refl
    require-true false h = cc

module _ {ℓ} {V : Type ℓ} (key : V → Key) (check : V → Check) (same : V → V → Bool)
    (message : String) (sound : (a b : V) → same a b ≡ true → a ≡ b) where
  add_entries-kept :
      (es : List (Key × V)) (ps : List V) (fs : List (Key × V)) (k : Key) (s : V)
      → add_entries key check same message es ps ≡ ok fs
      → find es k ≡ some s
      → find fs k ≡ some s
  unfolding add_entries
  add_entries-kept es [] fs k s h e = subst (λ l. find l k ≡ some s) (ok_injective h) e
  add_entries-kept es (p ∷ ps) fs k s h e =
      let (_, _, h₁) =
        >>=-eq-ok (check p)
          (λ _.
            check_conflict same (find es (key p)) p message
            >> add_entries key check same message (assign es (key p) p) ps)
          h in
      let (_, c, h₂) =
        >>=-eq-ok (check_conflict same (find es (key p)) p message)
          (λ _. add_entries key check same message (assign es (key p) p) ps) h₁ in
      add_entries-kept (assign es (key p) p) ps fs k s h₂
        (find-assign_kept same sound es (key p) k p s message c e)

-- A call of `configure_vocabulary` that succeeds keeps every predicate and property version that
-- the vocabulary had, with its specification.
pub configure-kept :
    (v w : Vocabulary) (ps : List PredicateSpec) (qs : List PropertySpec)
    → configure v ps qs ≡ ok w
    → ((k : Key) (s : PredicateSpec) → find v.predicates k ≡ some s → find w.predicates k ≡ some s)
      × ((k : Key) (s : PropertySpec) → find v.properties k ≡ some s → find w.properties k ≡ some s)
unfolding configure add_predicates add_properties
configure-kept v w ps qs h =
    let (es, h₁, rest) =
      >>=-eq-ok (add_predicates v.predicates ps)
        (λ es.
          add_properties v.properties qs >>= λ fs. ok (record { predicates = es; properties = fs }))
        h in
    let (fs, h₂, last) =
      >>=-eq-ok (add_properties v.properties qs)
        (λ fs. ok (record { predicates = es; properties = fs })) rest in
    (
      λ k s e.
          subst (λ l. find l k ≡ some s) (ap (λ (u : Vocabulary). u.predicates) (ok_injective last))
            (add_entries-kept (λ p. (p.id, p.version)) check_predicate predicate_eq
              "conflicting predicate identity/version" predicate_eq→eq v.predicates ps es k s h₁ e),
      λ k s e.
          subst (λ l. find l k ≡ some s) (ap (λ (u : Vocabulary). u.properties) (ok_injective last))
            (add_entries-kept (λ p. (p.id, p.version)) check_property property_eq
              "conflicting property identity/version" property_eq→eq v.properties qs fs k s h₂ e),
    )
