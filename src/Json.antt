-- ===== src/Json.antt =====
-- JSON values, as `json.loads` returns them and `dict.get` reads them. Numbers that are no integers
-- are kept out: no part of the program that is modelled reads one.
use atlas_py.Prelude.{
  ℕ, suc, ◌<◌, String, ◌≡◌, Bool, Option, none, some, List, [], ◌∷◌, arith, ◌==◌, if◌then◌else◌,
}
use atlas_py.Prelude.Int.{ℤ}
use Prim.Native.Nat.{max}

mutual
  pub data Json : Type 0 where
    null : Json
    bool : Bool → Json
    number : ℤ → Json
    text : String → Json
    array : Items → Json
    object : Fields → Json

  pub data Items : Type 0 where
    nil : Items
    cons : Json → Items → Items

  pub data Fields : Type 0 where
    end : Fields
    field : String → Json → Fields → Fields

-- value.get(key): `none` where the key is absent.
unfoldable pub lookup : Fields → String → Option Json
lookup end k = none
lookup (field j v fs) k = if j == k then some v else lookup fs k

-- The texts of a list, `none` where an item is no text.
unfoldable pub texts : Items → Option (List String)
texts nil = some []
texts (cons (text s) xs) = elim (texts xs) [ none ↦ none | some ss ↦ some (s ∷ ss) ]
texts (cons _ xs) = none

unfoldable pub from_texts : List String → Items
from_texts [] = nil
from_texts (s ∷ ss) = cons (text s) (from_texts ss)

unfoldable mutual
  pub depth : Json → ℕ
  depth null = 0
  depth (bool b) = 0
  depth (number n) = 0
  depth (text s) = 0
  depth (array xs) = suc (depth_items xs)
  depth (object fs) = suc (depth_fields fs)

  pub depth_items : Items → ℕ
  depth_items (cons item rest) = max (depth_items rest) (depth item)
  depth_items nil = 0

  pub depth_fields : Fields → ℕ
  depth_fields (field key value rest) = max (depth_fields rest) (depth value)
  depth_fields end = 0

-- A value that is looked up lies less deep than the object.
pub depth-lookup-lt :
    (fs : Fields) (k : String) (v : Json) → lookup fs k ≡ some v → depth v < depth (object fs)
unfolding lookup depth
depth-lookup-lt end k v h = ground arith
depth-lookup-lt (field j w fs) k v h = ground (arith, depth-lookup-lt fs k v)

pub texts-from_texts : (ss : List String) → texts (from_texts ss) ≡ some ss
unfolding texts from_texts
texts-from_texts [] = ground arith
texts-from_texts (s ∷ ss) = ground (arith, texts-from_texts ss)
