-- ===== src/Prelude/Int.antt =====
-- Python's integers, and the order that `min` and the comparisons use.
use Prim.Native.Nat.{ℕ, suc, ◌+◌, ◌≤◌}
use mathlib.Core.Path.{◌≡◌, refl}
use mathlib.Core.Logic.{◌↔◌}
use mathlib.Core.Bool.{Bool, true, false, ◌&&◌, ◌||◌}
use mathlib.Core.List.{List, [], ◌∷◌}
use native.Mathlib.Omega.{arith}
use atlas_py.Prelude.Tests.{leb, nat_eq, if◌then◌else◌}

-- `negsuc n` is -(n + 1).
pub data ℤ : Type 0 where
  pos : ℕ → ℤ
  negsuc : ℕ → ℤ

abbrev pub pos_part : ℤ → ℕ
pos_part (pos n) = n
pos_part (negsuc n) = 0

abbrev pub neg_part : ℤ → ℕ
neg_part (pos n) = 0
neg_part (negsuc n) = suc n

infix 50 ◌≤ℤ◌
abbrev pub ◌≤ℤ◌ : ℤ → ℤ → Type 0
a ≤ℤ b = pos_part a + neg_part b ≤ pos_part b + neg_part a

abbrev pub leb_ℤ : ℤ → ℤ → Bool
leb_ℤ a b = leb (pos_part a + neg_part b) (pos_part b + neg_part a)

abbrev pub eq_ℤ : ℤ → ℤ → Bool
eq_ℤ a b = nat_eq (pos_part a + neg_part b) (pos_part b + neg_part a)

pub eq_ℤ_iff : (a b : ℤ) → (eq_ℤ a b ≡ true) ↔ (a ≡ b)
eq_ℤ_iff a b = ground arith

-- min(x, *xs)
unfoldable pub minimum : ℤ → List ℤ → ℤ
minimum m [] = m
minimum m (x ∷ xs) = minimum (if leb_ℤ m x then m else x) xs

-- b <= x for each item
unfoldable pub all_above : ℤ → List ℤ → Bool
all_above b [] = true
all_above b (x ∷ xs) = leb_ℤ b x && all_above b xs

unfoldable pub occurs : ℤ → List ℤ → Bool
occurs b [] = false
occurs b (x ∷ xs) = eq_ℤ x b || occurs b xs

-- A bound stays one below a smaller bound.
pub all_above_mono :
    (a b : ℤ) (xs : List ℤ) → leb_ℤ a b ≡ true → all_above b xs ≡ true → all_above a xs ≡ true
unfolding all_above
all_above_mono a b [] h k = refl
all_above_mono a b (x ∷ xs) h k = ground (arith, all_above_mono a b xs)

pub minimum-le : (m : ℤ) (xs : List ℤ) → leb_ℤ (minimum m xs) m ≡ true
unfolding minimum
minimum-le m [] = ground arith
minimum-le m (x ∷ xs) = ground (arith, minimum-le m xs, minimum-le x xs)

pub minimum-all_above : (m : ℤ) (xs : List ℤ) → all_above (minimum m xs) (m ∷ xs) ≡ true
unfolding minimum all_above
minimum-all_above m [] = ground arith
minimum-all_above m (x ∷ xs) =
    ground (arith, minimum-all_above m xs, minimum-all_above x xs, minimum-le m xs, minimum-le x xs)

pub minimum-occurs : (m : ℤ) (xs : List ℤ) → occurs (minimum m xs) (m ∷ xs) ≡ true
unfolding minimum occurs
minimum-occurs m [] = ground arith
minimum-occurs m (x ∷ xs) = ground (arith, minimum-occurs m xs, minimum-occurs x xs)
