-- ===== src/Prelude/Dict.antt =====
-- Python's `dict` with string keys: iteration is in insertion order, an assignment to a key that
-- is present keeps its place.
use Prim.Native.String.{String}
use Prim.Native.Nat.{suc}
use mathlib.Core.Path.{◌≡◌, refl, ap}
use mathlib.Core.Bool.{Bool}
use mathlib.Core.Option.{Option, none, some}
use mathlib.Core.List.{List, [], ◌∷◌, map}
use native.Mathlib.Omega.{arith}
use text.Mathlib.Text.{◌==◌}
use text.Mathlib.TextEquality.{eq_iff}
use atlas_py.Prelude.Tests.{if◌then◌else◌, is_some}
use atlas_py.Prelude.Lists.{contains, length}
use atlas_py.Prelude.{eq_refl, false, ◌∙◌}

abbrev pub Dict {ℓ} : Type ℓ → Type ℓ
Dict V = List (String × V)

module _ {ℓ} {V : Type ℓ} where
  -- d.get(k)
  unfoldable pub get : Dict V → String → Option V
  get [] k = none
  get ((j, v) ∷ d) k = if j == k then some v else get d k

  -- d[k] = v
  unfoldable pub put : Dict V → String → V → Dict V
  put [] k v = (k, v) ∷ []
  put ((j, w) ∷ d) k v = if j == k then (j, v) ∷ d else (j, w) ∷ put d k v

  abbrev pub keys : Dict V → List String
  keys d = map (λ e. e.0) d

  abbrev pub values : Dict V → List V
  values d = map (λ e. e.1) d

  -- k in d
  abbrev pub has : Dict V → String → Bool
  has d k = is_some (get d k)

  -- An assignment is read back at its key, and leaves the other keys as they are.
  pub get-put :
      (d : Dict V) (key other : String) (new : V)
      → get (put d key new) other ≡ (if key == other then some new else get d other)
  unfolding put get
  get-put ((i, w) ∷ d) key other new =
      ground (arith, get-put d key other new, eq_iff i key, eq_iff i other, eq_iff key other)
  get-put [] key other new = refl

  pub get-put_self : (d : Dict V) (key : String) (new : V) → get (put d key new) key ≡ some new
  get-put_self d key new = get-put d key key new ∙ rw (eq_refl key) refl

  pub get-put_other :
      (d : Dict V) (key other : String) (new : V)
      → (key == other) ≡ false
      → get (put d key new) other ≡ get d other
  get-put_other d key other new differ = get-put d key other new ∙ rw differ refl

  pub contains-keys : (d : Dict V) (k : String) → contains (keys d) k ≡ has d k
  unfolding get contains
  contains-keys [] k = refl
  contains-keys ((j, v) ∷ d) k = ground (arith, contains-keys d k)

  pub length-keys : (d : Dict V) → length (keys d) ≡ length d
  length-keys [] = refl
  length-keys (e ∷ d) = ap suc (length-keys d)

pub ruleset dict_laws = (get-put, contains-keys)
