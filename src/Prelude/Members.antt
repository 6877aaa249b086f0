-- ===== src/Prelude/Members.antt =====
-- Python's `in`, `any` and comprehensions, as membership in a list.
use mathlib.Core.Path.{subst}
use mathlib.Core.List.{Memᴰ}
use mathlib.Core.List.Memᴰ.{head, tail}
use atlas_py.Prelude.{
  Bool, true, ◌≡◌, ◌↔◌, refl, sym, inl, inr, List, [], ◌∷◌, any, keep, arith, Bool-cases,
  if◌then◌else◌, String, contains, eq_iff, ◌==◌,
}

module _ {ℓ} {A : Type ℓ} (p : A → Bool) where
  any-member : (xs : List A) → any p xs ≡ true → (x : A) × Memᴰ x xs × (p x ≡ true)
  unfolding any
  any-member [] h = cc
  any-member (x ∷ xs) h = elim (Bool-cases (p x)) [
    | inl passes ↦ (x, head refl, passes)
    | inr e0 ↦ let (y, m, e) = any-member xs (rw e0 at h) in (y, tail m, e)
  ]

  any_of_member : (x : A) (xs : List A) → Memᴰ x xs → p x ≡ true → any p xs ≡ true
  unfolding any
  any_of_member x [] m passes = elim m [ ]
  any_of_member x (y ∷ xs) (head e) passes =
      let here = subst (λ z. p z ≡ true) e passes in ground (arith, here)
  any_of_member x (y ∷ xs) (tail m) passes =
      let later = any_of_member x xs m passes in ground (arith, later)

  -- any(p(x) for x in xs)
  pub any_iff : (xs : List A) → (any p xs ≡ true) ↔ ((x : A) × Memᴰ x xs × (p x ≡ true))
  any_iff xs = (any-member xs, λ (x, m, passes). any_of_member x xs m passes)

  kept_of : (x : A) (xs : List A) → Memᴰ x xs → p x ≡ true → Memᴰ x (keep p xs)
  unfolding keep
  kept_of x [] m passes = elim m [ ]
  kept_of x (y ∷ xs) (head e) passes =
      subst (λ b. Memᴰ x (if b then y ∷ keep p xs else keep p xs))
        (sym (subst (λ z. p z ≡ true) e passes)) (head e)
  kept_of x (y ∷ xs) (tail m) passes = elim (Bool-cases (p y)) [
    | inl e ↦ rw e (tail (kept_of x xs m passes))
    | inr e ↦ rw e (kept_of x xs m passes)
  ]

  of_kept : (x : A) (xs : List A) → Memᴰ x (keep p xs) → Memᴰ x xs × (p x ≡ true)
  unfolding keep
  of_kept x [] m = elim m [ ]
  of_kept x (y ∷ xs) m = elim (Bool-cases (p y)) [
    | inl e ↦ from_cons e (of_kept x xs) (rw e at m)
    | inr e ↦ let (later, passes) = of_kept x xs (rw e at m) in (tail later, passes)
  ]
    where
      from_cons :
          p y ≡ true
          → (Memᴰ x (keep p xs) → Memᴰ x xs × (p x ≡ true))
          → Memᴰ x (y ∷ keep p xs)
          → Memᴰ x (y ∷ xs) × (p x ≡ true)
      from_cons e below (head same) = (head same, subst (λ z. p z ≡ true) (sym same) e)
      from_cons e below (tail later) = let (there, passes) = below later in (tail there, passes)

  -- x in [y for y in xs if p(y)]
  pub keep_iff : (x : A) (xs : List A) → Memᴰ x (keep p xs) ↔ (Memᴰ x xs × (p x ≡ true))
  keep_iff x xs = (of_kept x xs, λ (m, passes). kept_of x xs m passes)

contains-any : (xs : List String) (a : String) → contains xs a ≡ any (λ x. x == a) xs
unfolding contains any
contains-any [] a = refl
contains-any (x ∷ xs) a = ground (arith, contains-any xs a)

pub contains_iff : (xs : List String) (a : String) → (contains xs a ≡ true) ↔ Memᴰ a xs
contains_iff xs a =
    let (there, back) = any_iff (λ x. x == a) xs in
    rw (contains-any xs a) (
      λ h. let (x, m, e) = there h in subst (λ z. Memᴰ z xs) ((eq_iff x a).0 e) m,
      λ m. back (a, m, (eq_iff a a).1 refl),
    )
