-- ===== src/Store/Unique.antt =====
-- store.py: `_unique_values`, by which admission looks for a participant that is named twice.
use atlas_py.Prelude.{
  suc, ◌+◌, ◌≤◌, String, Bool, true, false, not, ◌&&◌, ◌||◌, ◌≡◌, refl, List, [], ◌∷◌, ◌++◌, arith,
  eq_iff, any, contains, contains-append, distinct, length, nat_eq, if◌then◌else◌,
}

-- The loop returns at the first value that equals an earlier one, with that value added.
unfoldable pub unique_from : List String → List String → List String
unique_from result [] = result
unique_from result (value ∷ values) =
    let rest = unique_from (result ++ value ∷ []) values in
    if contains result value then result ++ value ∷ [] else rest

unfoldable pub unique_values : List String → List String
unique_values values = unique_from [] values

-- The test that stands before every use: no value is taken for a repetition.
abbrev pub seems_unique : List String → Bool
seems_unique values = nat_eq (length (unique_values values)) (length values)

-- No value occurs in `seen` or twice.
abbrev new_to : List String → List String → Bool
new_to seen [] = true
new_to seen (v ∷ vs) = not (contains seen v) && new_to (seen ++ v ∷ []) vs

length-concat : (xs : List String) (x : String) → length (xs ++ x ∷ []) ≡ suc (length xs)
length-concat [] x = refl
length-concat (y ∷ xs) x = omega (arith, length-concat xs x)

length-unique_from-le :
    (seen vs : List String) → length (unique_from seen vs) ≤ length seen + length vs
unfolding unique_from
length-unique_from-le seen [] = omega arith
length-unique_from-le seen (v ∷ vs) =
    ground (arith, length-unique_from-le (seen ++ v ∷ []) vs, length-concat seen v)

-- The last value is added whether it is new or not.
length-unique_from_concat :
    (seen vs : List String) (x : String)
    → nat_eq (length (unique_from seen (vs ++ x ∷ []))) (length seen + suc (length vs))
      ≡ new_to seen vs
unfolding unique_from
length-unique_from_concat seen [] x = ground (arith, length-concat seen x)
length-unique_from_concat seen (v ∷ vs) x = ground (
  arith,
  length-unique_from_concat (seen ++ v ∷ []) vs x,
  length-concat seen v,
  length-concat vs x,
)

any-contains-concat :
    (seen vs : List String) (v : String)
    → any (contains (seen ++ v ∷ [])) vs ≡ (any (contains seen) vs || contains vs v)
unfolding any contains
any-contains-concat seen [] v = refl
any-contains-concat seen (w ∷ vs) v =
    ground (
      arith,
      any-contains-concat seen vs v,
      contains-append seen (v ∷ []) w,
      eq_iff v w,
      eq_iff w v,
    )

new_to-distinct :
    (seen vs : List String) → new_to seen vs ≡ (distinct vs && not (any (contains seen) vs))
unfolding any distinct
new_to-distinct seen [] = refl
new_to-distinct seen (v ∷ vs) =
    ground (arith, new_to-distinct (seen ++ v ∷ []) vs, any-contains-concat seen vs v)

any-contains-nil : (vs : List String) → any (contains []) vs ≡ false
unfolding any contains
any-contains-nil [] = refl
any-contains-nil (v ∷ vs) = any-contains-nil vs

-- The test accepts a list exactly if its values before the last are distinct: a repetition that the
-- last value makes is not seen.
pub seems_unique-concat :
    (vs : List String) (x : String) → seems_unique (vs ++ x ∷ []) ≡ distinct vs
unfolding unique_values
seems_unique-concat vs x = ground (
  arith,
  length-unique_from_concat [] vs x,
  length-concat vs x,
  new_to-distinct [] vs,
  any-contains-nil vs,
)
