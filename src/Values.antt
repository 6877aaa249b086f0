-- ===== src/Values.antt =====
-- src/atlas/values.py: the values that property assertions carry. `type(x) is str` holds by typing,
-- and a native text has no isolated surrogates, so of `_text` the test for the empty text is left.
use atlas_py.Prelude.{
  String, Bool, true, false, not, ◌&&◌, List, [], ◌∷◌, ◌==◌, distinct, subset, arith, eq_refl, refl,
  ◌≡◌,
}
use atlas_py.Prelude.Int.{ℤ, eq_ℤ}
use atlas_py.Errors.{Check, Result, ok, validation_error, require, ◌>>◌}

pub data Value : Type 0 where
  symbol : String → Value
  integer : ℤ → Value
  finite_set_symbol sequence_symbol : List String → Value

abbrev pub nonempty : String → Bool
nonempty s = not (s == "")

-- _text(value)
abbrev pub text : String → Check
text s = require (nonempty s) (validation_error "value must be an exact string")

-- FiniteSetSymbol(items)
unfoldable pub finite_set : List String → Result Value
finite_set items = do
  require (distinct items) (validation_error "finite_set requires distinct exact symbols")
  ok (finite_set_symbol items)

unfoldable pub same_texts : List String → List String → Bool
same_texts [] [] = true
same_texts (x ∷ xs) (y ∷ ys) = x == y && same_texts xs ys
same_texts _ _ = false

pub same_texts_refl : (xs : List String) → same_texts xs xs ≡ true
unfolding same_texts
same_texts_refl [] = refl
same_texts_refl (x ∷ xs) = ground (arith, same_texts_refl xs, eq_refl x)

-- left == right: finite sets are compared as sets
unfoldable pub value_eq : Value → Value → Bool
value_eq (symbol a) (symbol b) = a == b
value_eq (integer a) (integer b) = eq_ℤ a b
value_eq (finite_set_symbol a) (finite_set_symbol b) = subset a b && subset b a
value_eq (sequence_symbol a) (sequence_symbol b) = same_texts a b
value_eq _ _ = false

abbrev pub is_integer : Value → Bool
is_integer (integer n) = true
is_integer _ = false
