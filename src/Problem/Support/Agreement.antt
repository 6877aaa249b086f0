-- ===== src/Problem/Support/Agreement.antt =====
-- problem.py: the validation of a persisted cost accepts the cost that the construction found.
use atlas_py.Errors.{>>-eq-ok, >>=-eq-ok, >>=-of_ok, ok, refuse-pass, require-of_true, require-pass}
use atlas_py.Graph.Walk.{ok_injective}
use atlas_py.Model.Knowledge.{PropertyAssertion, property}
use atlas_py.Model.Snapshot.{Snapshot}
use atlas_py.Prelude.{
  Bool, Bool-cases, List, String, [], ap, arith, eq_refl, inl, inr, keep, refl, some, sym, true,
  ◌&&◌, ◌==◌, ◌∙◌, ◌∷◌, ◌≡◌, ◌≢◌, contains, false,
}
use atlas_py.Prelude.Dict.{get, values}
use atlas_py.Prelude.Int.{eq_ℤ_iff, ℤ}
use atlas_py.Problem.{ObjectiveValue, check_objective_value}
use atlas_py.Problem.Build.{cost_objective}
use atlas_py.Problem.Select.{matches_objective}
use atlas_py.Problem.Support.{
  check_unique, eligible_supports, matches_cost, missing_support, objective_for_true, objective_of,
  referenced_property, the_support, validate_support, view_ids, has_value,
}
use atlas_py.Rules.Reads.{assertions, is_isolated}
use atlas_py.Store.{Store}
use atlas_py.Values.{Value, integer, is_integer}
use mathlib.Core.Path.{subst}
use atlas_py.Model.Scope.{agrees}

-- Each item has the property.
abbrev pub Every {ℓ κ} : {A : Type ℓ} → (A → Type κ) → List A → Type κ
Every P [] = Unit
Every P (x ∷ xs) = P x × Every P xs

-- Each property assertion of the store stands under its identity.
abbrev pub KeyedAssertions : Store → Type 0
KeyedAssertions s =
    Every (λ a. get s.records a.id ≡ some (property a)) (assertions (values s.records))

-- The head of a filtered list passes the test, and has what every item has.
keep-head :
    (P : PropertyAssertion → Type 0) (q : PropertyAssertion → Bool) (xs : List PropertyAssertion)
    (a : PropertyAssertion) (rest : List PropertyAssertion)
    → Every P xs
    → keep q xs ≡ a ∷ rest
    → P a × (q a ≡ true)
unfolding keep
keep-head P q [] a rest all_of h = cc
keep-head P q (x ∷ xs) a rest all_of h = elim (Bool-cases (q x)) [
  | inl kept ↦
      let same : x ≡ a = head_injective (rw kept at h) in
      (subst P same all_of.0, subst (λ z. q z ≡ true) same kept)
  | inr dropped ↦ keep-head P q xs a rest all_of.1 (rw dropped at h)
]
  where
    head_injective :
        {b c : PropertyAssertion} {bs cs : List PropertyAssertion} → b ∷ bs ≡ c ∷ cs → b ≡ c
    head_injective e = cc

missing_support-raises :
    (candidate : String) (found : List PropertyAssertion) (o : ObjectiveValue)
    → missing_support candidate found ≢ ok o
unfolding missing_support
missing_support-raises candidate found o h = ground (arith, h)

abbrev objective_from : PropertyAssertion → ℤ → ObjectiveValue
objective_from a v = record {
  value = v;
  knowledge_id = a.id;
  property = a.property;
  version = a.version;
  epistemic_status = a.epistemic_status;
}

objective_of_ok :
    (a : PropertyAssertion) (value : Value) (o : ObjectiveValue)
    → objective_of a value ≡ ok o
    → (v : ℤ) × (value ≡ integer v) × (o ≡ objective_from a v)
unfolding objective_of
objective_of_ok a (integer v) o h =
    let (checked, h1) = >>-eq-ok (check_objective_value (objective_from a v)) h in
    (v, refl, sym (ok_injective h1))
objective_of_ok a other o h = cc

module _ (s : Store) (candidate : String) (snapshot : Snapshot) (scopes : List String)
    (version : String) (modern : Bool) (o : ObjectiveValue) (keyed : KeyedAssertions s) where
  abbrev asks_for : List String → PropertyAssertion → Bool
  asks_for ids a =
      matches_cost s candidate "cost" version ids scopes a
      && a.epistemic_status == "exact"
      && is_integer a.value

  -- The one support that the construction takes.
  pub record Supported (ids : List String) : Type 0 where
    pub assertion : PropertyAssertion
    pub value : ℤ
    pub alone : eligible_supports s candidate "cost" version ids scopes ≡ assertion ∷ []
    pub holds_value : assertion.value ≡ integer value
    pub made : o ≡ objective_from assertion value
    pub under_id : get s.records assertion.id ≡ some (property assertion)
    pub passes : asks_for ids assertion ≡ true

  the_support-Supported :
      (ids : List String) (matching eligible : List PropertyAssertion)
      → eligible_supports s candidate "cost" version ids scopes ≡ eligible
      → the_support candidate matching eligible ≡ ok o
      → Supported ids
  unfolding the_support eligible_supports
  the_support-Supported ids matching [] e h = absurd (missing_support-raises candidate matching o h)
  the_support-Supported ids matching (a ∷ []) e h =
      let (v, integral, made) = objective_of_ok a a.value o h in
      let (there, passes) =
        keep-head (λ x. get s.records x.id ≡ some (property x)) (asks_for ids)
          (assertions (values s.records)) a [] keyed e in
      record {
        assertion = a;
        value = v;
        alone = e;
        holds_value = integral;
        made = made;
        under_id = there;
        passes = passes;
      }
  the_support-Supported ids matching (a ∷ b ∷ rest) e h = cc

  -- What the test of the eligible supports says of one.
  passes_parts :
      (ids : List String) (a : PropertyAssertion) (v : ℤ)
      → asks_for ids a ≡ true
      → a.value ≡ integer v
      → (matches_objective (cost_objective version) (objective_from a v) ≡ true)
        × (is_isolated s "property" a.id ≡ false)
        × (contains ids a.id ≡ true)
        × (contains scopes a.scope ≡ true)
        × ((a.description == candidate
              && a.property == "cost"
              && a.version == version
              && a.epistemic_status == "exact"
              && has_value a.value v)
            ≡ true)
  unfolding matches_cost matches_objective
  passes_parts ids a v passes integral = (
    ground arith,
    ground arith,
    ground arith,
    ground arith,
    ground (arith, passes, integral, (eq_ℤ_iff v v).1 refl),
  )

  support_accepts :
      (ids : List String)
      → view_ids s modern snapshot ≡ ok ids
      → Supported ids
      → validate_support s candidate (cost_objective version) (some o) snapshot scopes modern
        ≡ ok tt
  unfolding validate_support referenced_property check_unique
  support_accepts ids seen w =
      let a = w.assertion in
      let (matches, free, held, visible, agrees) =
        passes_parts ids a w.value w.passes w.holds_value in
      subst
        (λ z.
          validate_support s candidate (cost_objective version) (some z) snapshot scopes modern
          ≡ ok tt)
        (sym w.made)
        (require-pass _ matches (
          >>=-of_ok _
            (ap (referenced_property candidate (objective_from a w.value)) w.under_id
              ∙ require-pass _ (eq_refl a.id) refl)
            (refuse-pass _ free (
              >>=-of_ok _ seen (
                require-pass _ held (
                  require-pass _ visible (
                    require-pass _ agrees (
                      ap (check_unique candidate (objective_from a w.value)) w.alone
                      ∙ require-of_true _ (eq_refl a.id)))))))))

  -- A cost that the construction finds under an objective passes the validation under it.
  pub validate_support_accepts :
      objective_for_true s candidate snapshot scopes version modern ≡ ok o
      → validate_support s candidate (cost_objective version) (some o) snapshot scopes modern
        ≡ ok tt
  unfolding objective_for_true
  validate_support_accepts h =
      let (ids, seen, h1) = >>=-eq-ok (view_ids s modern snapshot) _ h in
      support_accepts ids seen (the_support-Supported ids _ _ refl h1)
