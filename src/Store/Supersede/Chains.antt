-- ===== src/Store/Supersede/Chains.antt =====
-- The acyclicity test of `_validate_supersession_candidate` against chains that end.
use mathlib.Core.Path.{subst}
use atlas_py.Prelude.{
  ℕ, zero, suc, ◌<◌, String, true, ◌≡◌, refl, sym, ap, ◌∙◌, ◌↔◌, inl, inr, none, some, List, [],
  ◌∷◌, arith, contains, length, Bool-cases, Option-cases, some_injective,
}
use atlas_py.Prelude.Counting.{unseen, unseen-cons-lt, unseen-le-length}
use atlas_py.Prelude.Dict.{Dict, get, keys, contains-keys, length-keys}
use atlas_py.Errors.{ok, >>=-eq-ok}
use atlas_py.Graph.Walk.{contains-cons_cases, absurd_contains}
use atlas_py.Store.Supersede.{follow, follow_each, check_acyclic}

module _ (graph : Dict String) where
  -- The chain from a key ends after the given number of edges.
  pub data EndsAfter : ℕ → String → Type 0 where
    last : {x : String} → get graph x ≡ none → EndsAfter zero x
    more : {n : ℕ} {x y : String} → get graph x ≡ some y → EndsAfter n y → EndsAfter (suc n) x

  pub EndsAfter-unique : {n m : ℕ} (x : String) → EndsAfter n x → EndsAfter m x → n ≡ m
  EndsAfter-unique x (last e) (last e') = refl
  EndsAfter-unique x (last e) (more e' k) = cc
  EndsAfter-unique x (more e h) (last e') = cc
  EndsAfter-unique x (more {y = y} e h) (more {n = m} {y = z} e' k) =
      ap suc (EndsAfter-unique y h (subst (EndsAfter m) (some_injective (sym e' ∙ e)) k))

  follow-EndsAfter :
      (fuel : ℕ) (seen : List String) (x : String)
      → follow graph fuel seen x ≡ ok tt
      → (n : ℕ) × EndsAfter n x
  unfolding follow
  follow-EndsAfter zero seen x h = cc
  follow-EndsAfter (suc fuel) seen x h = elim (Option-cases (get graph x)) [
    | inl e ↦ (0, last e)
    | inr (y, e) ↦ elim (Bool-cases (contains seen x)) [
      | inl old ↦ cc (rw (e, old, follow) at h)
      | inr new ↦
          let (n, ends) = follow-EndsAfter fuel (x ∷ seen) y (rw (e, new, follow) at h) in
          (suc n, more e ends)
    ]
  ]

  EndsAfter-follow :
      (fuel n : ℕ) (seen : List String) (x : String)
      → EndsAfter n x
      → ((y : String) → contains seen y ≡ true → (m : ℕ) × EndsAfter m y × (n < m))
      → unseen seen (keys graph) < fuel
      → follow graph fuel seen x ≡ ok tt
  unfolding follow
  EndsAfter-follow zero n seen x ends before h = absurd (omega arith)
  EndsAfter-follow (suc fuel) n seen x (last e) before h = ground (arith, e)
  EndsAfter-follow (suc fuel) (suc n) seen x (more {y = y} e ends) before h =
      elim (Bool-cases (contains seen x)) [
        | inl old ↦
            let (m, ends', lt) = before x old in
            absurd (omega (arith, EndsAfter-unique x (more e ends) ends'))
        | inr new ↦
            let rest : follow graph fuel (x ∷ seen) y ≡ ok tt =
              EndsAfter-follow fuel n (x ∷ seen) y ends
                (λ z m. elim (contains-cons_cases x seen z m) [
                  | inl same ↦
                      subst (λ w. (k : ℕ) × EndsAfter k w × (n < k)) same
                        (suc n, more e ends, omega arith)
                  | inr old ↦ let (k, ends', lt) = before z old in (k, ends', omega arith)
                ])
                (omega (
                  arith,
                  unseen-cons-lt seen (keys graph) x new (ground (arith, contains-keys graph x, e)),
                )) in
            ground (arith, e, new, rest)
      ]

  follow_each-ok :
      (starts : List String) (x : String)
      → follow_each graph starts ≡ ok tt
      → contains starts x ≡ true
      → (n : ℕ) × EndsAfter n x
  unfolding follow_each
  follow_each-ok [] x h m = absurd_contains x m
  follow_each-ok (start ∷ starts) x h m =
      let (u, e, rest) =
        >>=-eq-ok (follow graph (suc (length graph)) [] start) (λ _. follow_each graph starts) h in
      elim (contains-cons_cases start starts x m) [
        | inl same ↦
            subst (λ w. (n : ℕ) × EndsAfter n w) same
              (follow-EndsAfter (suc (length graph)) [] start e)
        | inr old ↦ follow_each-ok starts x rest old
      ]

  EndsAfter-follow_each :
      (starts : List String)
      → ((x : String) → (n : ℕ) × EndsAfter n x)
      → follow_each graph starts ≡ ok tt
  unfolding follow_each
  EndsAfter-follow_each [] h = refl
  EndsAfter-follow_each (start ∷ starts) h =
      let (n, ends) = h start in
      let first : follow graph (suc (length graph)) [] start ≡ ok tt =
        EndsAfter-follow (suc (length graph)) n [] start ends (λ y m. absurd_contains y m)
          (omega (arith, unseen-le-length [] (keys graph), length-keys graph)) in
      ground (arith, first, EndsAfter-follow_each starts h)

  -- The cycle test passes exactly when the chain from every text ends, after some number of edges.
  pub check_acyclic_iff : check_acyclic graph ≡ ok tt ↔ ((x : String) → (n : ℕ) × EndsAfter n x)
  unfolding check_acyclic
  check_acyclic_iff = (
    λ h x. elim (Option-cases (get graph x)) [
      | inl e ↦ (0, last e)
      | inr (y, e) ↦ follow_each-ok (keys graph) x h (ground (arith, contains-keys graph x, e))
    ],
    λ h. EndsAfter-follow_each (keys graph) h,
  )
