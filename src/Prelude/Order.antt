-- ===== src/Prelude/Order.antt =====
-- Python's order on texts, by code points, and `sorted` on what a set leaves.
use Prim.Native.Char.{code}
use Prim.Native.String.{String}
use mathlib.Core.Path.{◌≡◌, refl, ap₂}
use mathlib.Core.Bool.{Bool, true, false, ◌&&◌, ◌||◌}
use mathlib.Core.List.{List, [], ◌∷◌}
use native.Mathlib.Omega.{arith}
use text.Mathlib.Text.{◌==◌}
use text.Mathlib.TextEquality.{eq_iff, Char-path}
use atlas_py.Prelude.Tests.{ltb, nat_eq, if◌then◌else◌}
use atlas_py.Prelude.Lists.{contains, all}

-- a < b
unfoldable pub text_lt : String → String → Bool
text_lt s String.[] = false
text_lt String.[] (String.◌∷◌ d t) = true
text_lt (String.◌∷◌ c s) (String.◌∷◌ d t) =
    if ltb (code c) (code d) then true else (nat_eq (code c) (code d) && text_lt s t)

pub text_lt_irrefl : (s : String) → text_lt s s ≡ false
unfolding text_lt
text_lt_irrefl String.[] = refl
text_lt_irrefl (String.◌∷◌ c s) = ground (arith, text_lt_irrefl s)

pub text_lt_trans : (s t u : String) → text_lt s t ≡ true → text_lt t u ≡ true → text_lt s u ≡ true
unfolding text_lt
text_lt_trans s t String.[] h k = cc k
text_lt_trans s String.[] (String.◌∷◌ e u) h k = cc h
text_lt_trans String.[] (String.◌∷◌ d t) (String.◌∷◌ e u) h k = refl
text_lt_trans (String.◌∷◌ c s) (String.◌∷◌ d t) (String.◌∷◌ e u) h k =
    ground (arith, text_lt_trans s t u)

pub text_lt_total : (s t : String) → text_lt s t ≡ false → text_lt t s ≡ false → s ≡ t
unfolding text_lt
text_lt_total String.[] String.[] h k = refl
text_lt_total String.[] (String.◌∷◌ d t) h k = cc h
text_lt_total (String.◌∷◌ c s) String.[] h k = cc k
text_lt_total (String.◌∷◌ c s) (String.◌∷◌ d t) h k =
    ap₂ String.◌∷◌ (Char-path c d (ground arith)) (text_lt_total s t (ground arith) (ground arith))

-- One item put in its place, unless it is there.
unfoldable pub insert_sorted : String → List String → List String
insert_sorted x [] = x ∷ []
insert_sorted x (y ∷ ys) =
    if x == y then y ∷ ys else (if text_lt x y then x ∷ y ∷ ys else y ∷ insert_sorted x ys)

-- sorted(set(xs))
unfoldable pub sorted_set : List String → List String
sorted_set [] = []
sorted_set (x ∷ xs) = insert_sorted x (sorted_set xs)

-- Strictly ascending: sorted, and without repetition.
unfoldable pub ascending : List String → Bool
ascending [] = true
ascending (x ∷ xs) = all (text_lt x) xs && ascending xs

contains-insert_sorted :
    (x : String) (ys : List String) (a : String)
    → contains (insert_sorted x ys) a ≡ (x == a || contains ys a)
unfolding insert_sorted contains
contains-insert_sorted x [] a = refl
contains-insert_sorted x (y ∷ ys) a = ground (arith, contains-insert_sorted x ys a, eq_iff x y)

pub contains-sorted_set :
    (xs : List String) (a : String) → contains (sorted_set xs) a ≡ contains xs a
unfolding sorted_set contains
contains-sorted_set [] a = refl
contains-sorted_set (x ∷ xs) a =
    ground (arith, contains-sorted_set xs a, contains-insert_sorted x (sorted_set xs) a)

all-lt_trans :
    (x y : String) (ys : List String)
    → text_lt x y ≡ true
    → all (text_lt y) ys ≡ true
    → all (text_lt x) ys ≡ true
unfolding all
all-lt_trans x y [] h k = refl
all-lt_trans x y (z ∷ ys) h k = ground (arith, all-lt_trans x y ys, text_lt_trans x y z)

all-lt-insert_sorted :
    (b x : String) (ys : List String)
    → text_lt b x ≡ true
    → all (text_lt b) ys ≡ true
    → all (text_lt b) (insert_sorted x ys) ≡ true
unfolding all insert_sorted
all-lt-insert_sorted b x [] h k = ground arith
all-lt-insert_sorted b x (y ∷ ys) h k = ground (arith, all-lt-insert_sorted b x ys)

insert_sorted-ascending :
    (x : String) (ys : List String) → ascending ys ≡ true → ascending (insert_sorted x ys) ≡ true
unfolding ascending insert_sorted all
insert_sorted-ascending x [] h = refl
insert_sorted-ascending x (y ∷ ys) h = ground (
  arith,
  insert_sorted-ascending x ys,
  all-lt-insert_sorted y x ys,
  all-lt_trans x y ys,
  text_lt_total x y,
  eq_iff x y,
)

pub sorted_set-ascending : (xs : List String) → ascending (sorted_set xs) ≡ true
unfolding sorted_set ascending
sorted_set-ascending [] = refl
sorted_set-ascending (x ∷ xs) = insert_sorted-ascending x (sorted_set xs) (sorted_set-ascending xs)

lt_of_contains :
    (b : String) (xs : List String) (a : String)
    → all (text_lt b) xs ≡ true
    → contains xs a ≡ true
    → text_lt b a ≡ true
unfolding all contains
lt_of_contains b [] a h k = cc k
lt_of_contains b (x ∷ xs) a h k = ground (arith, lt_of_contains b xs a, eq_iff x a)

module _ (x y : String) (xs ys : List String) (h : ascending (x ∷ xs) ≡ true)
    (k : ascending (y ∷ ys) ≡ true)
    (same : (a : String) → contains (x ∷ xs) a ≡ contains (y ∷ ys) a) where
  ascending-head_ext : x ≡ y
  unfolding ascending contains
  ascending-head_ext =
      text_lt_total x y
        (ground (
          arith,
          lt_of_contains y ys x,
          text_lt_trans x y x,
          text_lt_irrefl x,
          same x,
          eq_iff x x,
          eq_iff y x,
        ))
        (ground (
          arith,
          lt_of_contains x xs y,
          text_lt_trans y x y,
          text_lt_irrefl y,
          same y,
          eq_iff y y,
          eq_iff x y,
        ))

  ascending-tail_ext : (a : String) → contains xs a ≡ contains ys a
  unfolding ascending contains
  ascending-tail_ext a = ground (
    arith,
    ascending-head_ext,
    lt_of_contains x xs a,
    lt_of_contains y ys a,
    text_lt_irrefl a,
    same a,
    eq_iff x a,
    eq_iff y a,
  )

-- Ascending lists with the same members are one list.
pub ascending_ext :
    (xs ys : List String)
    → ascending xs ≡ true
    → ascending ys ≡ true
    → ((a : String) → contains xs a ≡ contains ys a)
    → xs ≡ ys
unfolding ascending contains
ascending_ext [] [] h k same = refl
ascending_ext [] (y ∷ ys) h k same = ground (arith, same y, eq_iff y y)
ascending_ext (x ∷ xs) [] h k same = ground (arith, same x, eq_iff x x)
ascending_ext (x ∷ xs) (y ∷ ys) h k same =
    ap₂ ◌∷◌ (ascending-head_ext x y xs ys h k same)
      (ascending_ext xs ys (ground arith) (ground arith) (ascending-tail_ext x y xs ys h k same))
