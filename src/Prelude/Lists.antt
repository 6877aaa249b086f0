-- ===== src/Prelude/Lists.antt =====
-- Python's `in`, `any`, `all`, comprehensions and `len(set(xs)) == len(xs)` over tuples and lists.
use Prim.Native.Nat.{ℕ, suc, ◌≤◌}
use Prim.Native.String.{String}
use mathlib.Core.Path.{◌≡◌, refl}
use mathlib.Core.Bool.{Bool, true, false, not, ◌&&◌, ◌||◌}
use mathlib.Core.List.{List, [], ◌∷◌, ◌++◌, map}
use native.Mathlib.Omega.{arith}
use text.Mathlib.Text.{◌==◌}
use text.Mathlib.TextEquality.{eq_iff}
use text.Mathlib.TextPositions.{eq_refl}
use atlas_py.Prelude.Tests.{if◌then◌else◌}

module _ {ℓ} {A : Type ℓ} where
  abbrev pub length : List A → ℕ
  length [] = 0
  length (x ∷ xs) = suc (length xs)

  -- any(p(x) for x in xs)
  unfoldable pub any : (A → Bool) → List A → Bool
  any p [] = false
  any p (x ∷ xs) = p x || any p xs

  -- all(p(x) for x in xs)
  unfoldable pub all : (A → Bool) → List A → Bool
  all p [] = true
  all p (x ∷ xs) = p x && all p xs

  -- [x for x in xs if p(x)]
  unfoldable pub keep : (A → Bool) → List A → List A
  keep p [] = []
  keep p (x ∷ xs) = let rest = keep p xs in if p x then x ∷ rest else rest

-- x in xs
unfoldable pub contains : List String → String → Bool
contains [] a = false
contains (x ∷ xs) a = x == a || contains xs a

-- len(set(xs)) == len(xs)
unfoldable pub distinct : List String → Bool
unfolding contains
distinct [] = true
distinct (x ∷ xs) = not (contains xs x) && distinct xs

-- a <= b on sets
unfoldable pub subset : List String → List String → Bool
unfolding contains
subset [] ys = true
subset (x ∷ xs) ys = contains ys x && subset xs ys

pub contains_self : (a : String) (xs : List String) → contains (a ∷ xs) a ≡ true
unfolding contains
contains_self a xs = ground (arith, eq_refl a)

pub contains-append :
    (xs ys : List String) (a : String) → contains (xs ++ ys) a ≡ (contains xs a || contains ys a)
unfolding contains
contains-append [] ys a = refl
contains-append (x ∷ xs) ys a = ground (arith, contains-append xs ys a)

module _ {ℓ} {A : Type ℓ} (p : A → Bool) where
  -- A key survives the filter exactly when an item that passes the test carries it.
  pub contains-map-keep_of :
      (f : A → String) (xs : List A) (a : String)
      → contains (map f (keep p xs)) a ≡ true
      → contains (map f xs) a ≡ true
  unfolding contains keep
  contains-map-keep_of f [] a h = h
  contains-map-keep_of f (x ∷ xs) a h = ground (arith, contains-map-keep_of f xs a)

  pub distinct-map-keep :
      (f : A → String) (xs : List A)
      → distinct (map f xs) ≡ true
      → distinct (map f (keep p xs)) ≡ true
  unfolding distinct keep
  distinct-map-keep f [] h = refl
  distinct-map-keep f (x ∷ xs) h =
      ground (arith, distinct-map-keep f xs, contains-map-keep_of f xs (f x))

  pub all-keep : (xs : List A) → all p (keep p xs) ≡ true
  unfolding all keep
  all-keep [] = refl
  all-keep (x ∷ xs) = ground (arith, all-keep xs)

  pub length-keep-le : (xs : List A) → length (keep p xs) ≤ length xs
  unfolding keep
  length-keep-le [] = omega arith
  length-keep-le (x ∷ xs) = ground (arith, length-keep-le xs)

pub contains-keep :
    (p : String → Bool) (xs : List String) (a : String)
    → contains (keep p xs) a ≡ (contains xs a && p a)
unfolding contains keep
contains-keep p [] a = refl
contains-keep p (x ∷ xs) a = ground (arith, contains-keep p xs a, eq_iff x a)

pub contains-tail :
    (x : String) (xs : List String) (a : String) → contains xs a ≡ true → contains (x ∷ xs) a ≡ true
unfolding contains
contains-tail x xs a h = ground arith

pub subset_refl : (xs : List String) → subset xs xs ≡ true
unfolding subset
subset_refl xs = subset_within xs xs (λ y m. m)
  where
    subset_within :
        (ys zs : List String)
        → ((y : String) → contains ys y ≡ true → contains zs y ≡ true)
        → subset ys zs ≡ true
    subset_within [] zs h = refl
    subset_within (y ∷ ys) zs h =
        ground (
          arith,
          h y (contains_self y ys),
          subset_within ys zs (λ x m. h x (contains-tail y ys x m)),
        )

pub all_of_contains :
    (p : String → Bool) (xs : List String)
    → ((y : String) → contains xs y ≡ true → p y ≡ true)
    → all p xs ≡ true
unfolding all
all_of_contains p [] h = refl
all_of_contains p (x ∷ xs) h =
    ground
      (arith, all_of_contains p xs (λ y m. h y (contains-tail x xs y m)), h x (contains_self x xs))
