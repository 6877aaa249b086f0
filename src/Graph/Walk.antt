-- ===== src/Graph/Walk.antt =====
-- The walk marks exactly what is reachable, and ends.
use mathlib.Core.Path.{subst}
use atlas_py.Prelude.{
  ℕ, zero, suc, String, ◌≡◌, sym, ◌∙◌, ◌⊎◌, inl, inr, true, List, [], ◌∷◌, ◌++◌, arith, eq_iff,
  contains, contains-append, Bool-cases,
}
use atlas_py.Errors.{Result, ok, >>=-eq-ok}
use atlas_py.Graph.{each, visit, visit_all}

pub ok_injective {ℓ} : {A : Type ℓ} {a b : A} → ok a ≡ ok b → a ≡ b
ok_injective e = cc

pub absurd_contains {ℓ} : {A : Type ℓ} (x : String) → contains [] x ≡ true → A
absurd_contains x h = absurd (unfold contains in (cc h))

pub contains-cons_cases :
    (x : String) (xs : List String) (y : String)
    → contains (x ∷ xs) y ≡ true
    → (x ≡ y) ⊎ (contains xs y ≡ true)
unfolding contains
contains-cons_cases x xs y h = ground (arith, eq_iff x y)

pub contains-concat_cases :
    (seen : List String) (x y : String)
    → contains (seen ++ x ∷ []) y ≡ true
    → (contains seen y ≡ true) ⊎ (x ≡ y)
unfolding contains
contains-concat_cases seen x y h = ground (arith, contains-append seen (x ∷ []) y, eq_iff x y)

pub contains-concat :
    (seen : List String) (x y : String)
    → contains seen y ≡ true
    → contains (seen ++ x ∷ []) y ≡ true
contains-concat seen x y h = ground (arith, contains-append seen (x ∷ []) y)

contains-concat_self : (seen : List String) (x : String) → contains (seen ++ x ∷ []) x ≡ true
unfolding contains
contains-concat_self seen x = ground (arith, contains-append seen (x ∷ []) x, eq_iff x x)

module _ (next : String → Result (List String)) where
  -- What is reached from `x` along the successors that `next` returns.
  pub data Reach (x : String) : String → Type 0 where
    here : Reach x x
    step :
        {y : String} (ys : List String) (z : String)
        → Reach x y
        → next y ≡ ok ys
        → contains ys z ≡ true
        → Reach x z

  -- A node is new in `after` only if its successors are in `after` too.
  abbrev pub Closes : List String → List String → Type 0
  Closes before after =
      ((y : String) → contains before y ≡ true → contains after y ≡ true)
      × ((y : String)
          → contains after y ≡ true
          → (contains before y ≡ true)
            ⊎ ((ys : List String) × (next y ≡ ok ys)
                × ((z : String) → contains ys z ≡ true → contains after z ≡ true)))

  pub Closes-eq : (a b : List String) → a ≡ b → Closes a b
  Closes-eq a b e = (
    λ y m. subst (λ l. contains l y ≡ true) e m,
    λ y m. inl (subst (λ l. contains l y ≡ true) (sym e) m),
  )

  Closes-trans : (a b c : List String) → Closes a b → Closes b c → Closes a c
  Closes-trans a b c (ab, ab') (bc, bc') = (
    λ y h. bc y (ab y h),
    λ y h. elim (bc' y h) [
      | inr closed ↦ inr closed
      | inl old ↦ elim (ab' y old) [
        | inl older ↦ inl older
        | inr (ys, e, k) ↦ inr (ys, e, λ z m. bc z (k z m))
      ]
    ],
  )

  each-Closes :
      (f : String → List String → Result (List String))
      → ((x : String) (seen after : List String)
          → f x seen ≡ ok after
          → Closes seen after × (contains after x ≡ true))
      → (xs seen after : List String) → each f xs seen ≡ ok after
      → Closes seen after × ((x : String) → contains xs x ≡ true → contains after x ≡ true)
  unfolding each
  each-Closes f keep [] seen after h =
      (Closes-eq seen after (ok_injective h), λ x m. absurd_contains x m)
  each-Closes f keep (x ∷ xs) seen after h =
      let (mid, e, rest) = >>=-eq-ok (f x seen) (each f xs) h in
      let (closes, marked) = keep x seen mid e in
      let (closes', all_marked) = each-Closes f keep xs mid after rest in
      (
        Closes-trans seen mid after closes closes',
        λ y m. elim (contains-cons_cases x xs y m) [
          | inl e ↦ subst (λ w. contains after w ≡ true) e (closes'.0 x marked)
          | inr old ↦ all_marked y old
        ],
      )

  pub visit-Closes :
      (fuel : ℕ) (x : String) (seen after : List String)
      → visit next fuel x seen ≡ ok after
      → Closes seen after × (contains after x ≡ true)
  unfolding visit
  visit-Closes zero x seen after h = cc
  visit-Closes (suc fuel) x seen after h = elim (Bool-cases (contains seen x)) [
    | inl old ↦ (
      Closes-eq seen after (ok_injective (rw old at h)),
      subst (λ l. contains l x ≡ true) (ok_injective (rw old at h)) old,
    )
    | inr fresh ↦
        let (ys, e, walked) =
          >>=-eq-ok (next x) (λ xs. each (visit next fuel) xs (seen ++ x ∷ [])) (rw fresh at h) in
        let (closes, marked) =
          each-Closes (visit next fuel) (visit-Closes fuel) ys (seen ++ x ∷ []) after walked in
        (
          (
            λ y m. closes.0 y (contains-concat seen x y m),
            λ y m. elim (closes.1 y m) [
              | inr closed ↦ inr closed
              | inl listed ↦ elim (contains-concat_cases seen x y listed) [
                | inl older ↦ inl older
                | inr same ↦ inr (ys, subst (λ w. next w ≡ ok ys) same e, marked)
              ]
            ],
          ),
          closes.0 x (contains-concat_self seen x),
        )
  ]

  -- Every node that is reached from a root is marked.
  pub visit_all_complete :
      (fuel : ℕ) (roots after : List String) (x y : String)
      → visit_all next fuel roots ≡ ok after
      → contains roots x ≡ true
      → Reach x y
      → contains after y ≡ true
  unfolding visit_all
  visit_all_complete fuel roots after x y h m r =
      let (closes, marked) = each-Closes (visit next fuel) (visit-Closes fuel) roots [] after h in
      reached closes r (marked x m)
    where
      reached :
          {z : String}
          → Closes [] after
          → Reach x z
          → contains after x ≡ true
          → contains after z ≡ true
      reached c here k = k
      reached c (step {y = u} ys z p e i) k = elim (c.1 u (reached c p k)) [
        | inl unmarked ↦ absurd_contains u unmarked
        | inr (zs, e', k') ↦ k' z (subst (λ l. contains l z ≡ true) (ok_injective (sym e ∙ e')) i)
      ]
