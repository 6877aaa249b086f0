-- ===== src/Prelude/Counting.antt =====
-- How many of a list of keys a growing list of seen names leaves out: the measure of the searches.
use Prim.Native.Nat.{ℕ, suc, ◌≤◌, ◌<◌}
use Prim.Native.String.{String}
use mathlib.Core.Path.{◌≡◌}
use mathlib.Core.Bool.{true, false}
use mathlib.Core.List.{List, [], ◌∷◌, ◌++◌}
use native.Mathlib.Omega.{arith}
use text.Mathlib.Text.{◌==◌}
use text.Mathlib.TextEquality.{eq_iff}
use atlas_py.Prelude.Tests.{if◌then◌else◌}
use atlas_py.Prelude.Lists.{contains, contains-append, length}

unfoldable pub unseen : List String → List String → ℕ
unseen seen [] = 0
unseen seen (k ∷ ks) = let n = unseen seen ks in if contains seen k then n else suc n

pub unseen-le-length : (seen ks : List String) → unseen seen ks ≤ length ks
unfolding unseen
unseen-le-length seen [] = omega arith
unseen-le-length seen (k ∷ ks) = ground (arith, unseen-le-length seen ks)

pub unseen-append-le : (seen more ks : List String) → unseen (seen ++ more) ks ≤ unseen seen ks
unfolding unseen
unseen-append-le seen more [] = omega arith
unseen-append-le seen more (k ∷ ks) =
    ground (arith, unseen-append-le seen more ks, contains-append seen more k)

contains-singleton : (a b : String) → contains (a ∷ []) b ≡ (a == b)
unfolding contains
contains-singleton a b = ground arith

-- A key that is seen for the first time lowers the count.
pub unseen-concat-lt :
    (seen ks : List String) (a : String)
    → contains seen a ≡ false
    → contains ks a ≡ true
    → unseen (seen ++ a ∷ []) ks < unseen seen ks
unfolding unseen contains
unseen-concat-lt seen [] a h k = ground arith
unseen-concat-lt seen (b ∷ ks) a h k = ground (
  arith,
  unseen-concat-lt seen ks a h,
  unseen-append-le seen (a ∷ []) ks,
  contains-append seen (a ∷ []) b,
  contains-singleton a b,
  eq_iff a b,
  eq_iff b a,
)

-- What marks more leaves fewer out.
pub unseen_mono :
    (seen after ks : List String)
    → ((y : String) → contains seen y ≡ true → contains after y ≡ true)
    → unseen after ks ≤ unseen seen ks
unfolding unseen
unseen_mono seen after [] h = omega arith
unseen_mono seen after (k ∷ ks) h = ground (arith, unseen_mono seen after ks h, h k)

pub unseen-cons-lt :
    (seen ks : List String) (a : String)
    → contains seen a ≡ false
    → contains ks a ≡ true
    → unseen (a ∷ seen) ks < unseen seen ks
unfolding unseen contains
unseen-cons-lt seen [] a h k = ground arith
unseen-cons-lt seen (b ∷ ks) a h k =
    ground (arith, unseen-cons-lt seen ks a h, unseen-cons-le seen ks a, eq_iff a b, eq_iff b a)
  where
    unseen-cons-le :
        (more keys : List String) (x : String) → unseen (x ∷ more) keys ≤ unseen more keys
    unseen-cons-le more [] x = omega arith
    unseen-cons-le more (y ∷ keys) x = ground (arith, unseen-cons-le more keys x)
