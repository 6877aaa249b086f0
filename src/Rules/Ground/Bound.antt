-- ===== src/Rules/Ground/Bound.antt =====
-- The bindings of a grounding: what `bind_each` binds, and to what.
use atlas_py.Errors.{>>-eq-ok, >>=-eq-ok, ok, require, require-true}
use atlas_py.Graph.Walk.{ok_injective}
use atlas_py.Prelude.{
  Bool, List, String, [], all, ap, arith, contains, eq_iff, if◌then◌else◌, some, sym, true, ◌∷◌,
  ◌≡◌,
}
use atlas_py.Prelude.Dict.{Dict, get, get-put, put, values}
use atlas_py.Rules.Ground.{bind_each}
use atlas_py.Store.{subscript}
use mathlib.Core.Path.{subst}

pub get_of_subscript {ℓ} :
    {V : Type ℓ} (d : Dict V) (k : String) (v : V) → subscript d k ≡ ok v → get d k ≡ some v
unfolding subscript
get_of_subscript d k v h = ground arith

pub subscript_of_get {ℓ} :
    {V : Type ℓ} (d : Dict V) (k : String) (v : V) → get d k ≡ some v → subscript d k ≡ ok v
unfolding subscript
subscript_of_get d k v h = ground (arith, h)

module _ (bindings : Dict String) (known : List String) where
  bind_each-nil :
      (bound after : Dict String) → bind_each bindings known [] bound ≡ ok after → bound ≡ after
  unfolding bind_each
  bind_each-nil bound after h = ok_injective h

  -- One name bound, then the others.
  bind_each-cons :
      (name : String) (names : List String) (bound after : Dict String)
      → bind_each bindings known (name ∷ names) bound ≡ ok after
      → (value : String) × (get bindings name ≡ some value)
        × (contains known value ≡ true)
        × (bind_each bindings known names (put bound name value) ≡ ok after)
  unfolding bind_each
  bind_each-cons name names bound after h =
      let (value, e, h1) = >>=-eq-ok (subscript bindings name) _ h in
      let (there, h2) = >>-eq-ok (require (contains known value) _) h1 in
      (value, get_of_subscript bindings name value e, require-true _ there, h2)

  -- A name that is declared is bound to what it was given.
  pub get-bind_each :
      (names : List String) (bound after : Dict String) (k : String)
      → bind_each bindings known names bound ≡ ok after
      → get after k ≡ (if contains names k then get bindings k else get bound k)
  unfolding contains
  get-bind_each [] bound after k h = ap (λ d. get d k) (sym (bind_each-nil bound after h))
  get-bind_each (name ∷ names) bound after k h =
      let (value, given, there, rest) = bind_each-cons name names bound after h in
      ground (
        arith,
        get-bind_each names (put bound name value) after k rest,
        get-put bound name k value,
        eq_iff name k,
      )

  all-values-put :
      (p : String → Bool) (d : Dict String) (k v : String)
      → p v ≡ true
      → all p (values d) ≡ true
      → all p (values (put d k v)) ≡ true
  unfolding all put
  all-values-put p [] k v h a = ground arith
  all-values-put p ((j, w) ∷ d) k v h a = ground (arith, all-values-put p d k v h)

  -- What is bound stands among the known descriptions.
  pub bind_each_known :
      (names : List String) (bound after : Dict String)
      → bind_each bindings known names bound ≡ ok after
      → all (contains known) (values bound) ≡ true
      → all (contains known) (values after) ≡ true
  bind_each_known [] bound after h a =
      subst (λ d. all (contains known) (values d) ≡ true) (bind_each-nil bound after h) a
  bind_each_known (name ∷ names) bound after h a =
      let (value, given, there, rest) = bind_each-cons name names bound after h in
      bind_each_known names (put bound name value) after rest
        (all-values-put (contains known) bound name value there a)
