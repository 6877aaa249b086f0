-- ===== src/Scope/Validate/Agreement.antt =====
-- scope.py: the historical rule that a grounding result is validated against is the one that it was
-- evaluated by.
use atlas_py.Errors.{
  >>-eq-ok, err, grounding_error, ok, require, require-pass, ◌>>=◌, >>=-eq-ok, >>=-of_ok, Result,
  refuse-of_false, require-of_true,
}
use atlas_py.Graph.Walk.{ok_injective}
use atlas_py.Json.{Fields, Items, Json, array, cons, lookup, nil, object, text, texts}
use atlas_py.Model.Snapshot.{RuleDefinition, Snapshot}
use atlas_py.Prelude.{
  List, Option, Option-cases, String, [], ap, eq_refl, inl, inr, none, refl, some, ◌==◌, ◌∙◌, ◌∷◌,
  ◌≡◌, arith, some_injective, Bool-cases, eq_iff, false, is_some, sym, true,
}
use atlas_py.Prelude.Dict.{Dict}
use atlas_py.Problem.Access.{read}
use atlas_py.Rules.{text_field, State}
use atlas_py.Rules.Ground.{
  Head, find_head, head_of, payload_fields, rule_structure, subscript_all, text_list, the_rule,
  checked_conclusion, conclude, conclude_if_true,
}
use atlas_py.Scope.Validate.{
  declared_names, fixed_definition, historical_parts, subscript_items, subscript_name,
  bound_participants, check_conclusion_of, check_head, check_true, has_text,
}
use atlas_py.Store.{subscript, Store}
use mathlib.Core.Path.{subst}
use atlas_py.Vocabulary.Growth.{same_texts→eq}
use atlas_py.Identity.{identifier}
use atlas_py.Model.Grounding.{
  EvaluationTruth, GroundedConclusion, GroundingResult, check_conclusion, fails, holds, is_true,
  unknown,
}
use atlas_py.Rules.Reads.{fixes}
use atlas_py.Values.{same_texts, same_texts_refl}
use atlas_py.Problem.Equality.{same_bindings}

text_list_items :
    (j : Option Json) (ss : List String)
    → text_list j ≡ some ss
    → (xs : Items) × (j ≡ some (array xs)) × (texts xs ≡ some ss)
text_list_items (some (array xs)) ss h = (xs, refl, h)
text_list_items none ss h = cc
text_list_items (some j) ss h = cc

head_object :
    (j : Option Json) (declared : List String) (structure : List String × Fields)
    → (elim j [
      | some (object head) ↦ ok (declared, head)
      | _ ↦ err (grounding_error "invalid historical rule structure")
    ])
      ≡ ok structure
    → (declared ≡ structure.0) × (j ≡ some (object structure.1))
head_object (some (object fs)) declared structure h =
    (ap (λ p. p.0) (ok_injective h), ap (λ p. some (object p.1)) (ok_injective h))
head_object none declared structure h = cc
head_object (some j) declared structure h = cc

pub record Structured (fs : Fields) (structure : List String × Fields) : Type 0 where
  pub items : Items
  pub listed : lookup fs "participants" ≡ some (array items)
  pub declared : texts items ≡ some structure.0
  pub headed : lookup fs "head" ≡ some (object structure.1)

rule_structure-Structured :
    (fs : Fields) (structure : List String × Fields)
    → rule_structure fs ≡ ok structure
    → Structured fs structure
unfolding rule_structure
rule_structure-Structured fs structure h =
    elim (Option-cases (text_list (lookup fs "participants"))) [
      | inl absent ↦ cc (rw (absent, rule_structure) at h)
      | inr (declared, e) ↦
          let (items, listed, read) = text_list_items (lookup fs "participants") declared e in
          let (same, headed) =
            head_object (lookup fs "head") declared structure (rw (e, rule_structure) at h) in
          record { items = items; listed = listed; declared = read ∙ ap some same; headed = headed }
    ]

historical_parts_lem :
    (fs : Fields) (structure : List String × Fields)
    → Structured fs structure
    → historical_parts (object fs) ≡ ok (some structure.0, object structure.1)
unfolding historical_parts declared_names
historical_parts_lem fs structure w = rw (w.listed, w.headed) (rw w.declared refl)

pub historical_parts_agrees :
    (payload : Json) (fs : Fields) (structure : List String × Fields)
    → payload_fields payload ≡ ok fs
    → rule_structure fs ≡ ok structure
    → historical_parts payload ≡ ok (some structure.0, object structure.1)
unfolding payload_fields
historical_parts_agrees (object gs) fs structure h k =
    historical_parts_lem gs structure
      (rule_structure-Structured gs structure (ap rule_structure (ok_injective h) ∙ k))
historical_parts_agrees j fs structure h k = cc

-- The one definition of a rule is the definition that the validation asks for.
pub fixed_definition_agrees :
    (ds : List RuleDefinition) (rule : RuleDefinition)
    → the_rule ds ≡ ok rule
    → fixed_definition ds rule.version ≡ ok rule
unfolding the_rule fixed_definition
fixed_definition_agrees [] rule h = cc
fixed_definition_agrees (d ∷ []) rule h =
    let (supported, h1) = >>-eq-ok (require d.evaluation_supported _) h in
    let same = ok_injective h1 in
    require-pass _ (ap (λ x. x.version == rule.version) same ∙ eq_refl rule.version) (ap ok same)
fixed_definition_agrees (d ∷ e ∷ ds) rule h = cc

subscript_items-texts :
    (bindings : Dict String) (xs : Items) (ss : List String)
    → texts xs ≡ some ss
    → subscript_items bindings xs ≡ subscript_all bindings ss
unfolding texts subscript_items subscript_all subscript_name
subscript_items-texts bindings nil ss h =
    let e : some [] ≡ some ss = h in ap (subscript_all bindings) (some_injective e)
subscript_items-texts bindings (cons (text s) xs) ss h = elim (Option-cases (texts xs)) [
  | inl absent ↦ cc (rw absent at h)
  | inr (rest, e) ↦
      let same : s ∷ rest ≡ ss = some_injective (rw e at h) in
      subst (λ l. (subscript_items bindings (cons (text s) xs)) ≡ subscript_all bindings l) same
        (ap (λ m. subscript bindings s >>= λ v. m >>= λ vs. ok (v ∷ vs))
          (subscript_items-texts bindings xs rest e))
]
subscript_items-texts bindings (cons j xs) ss h = cc

-- The fields of the head that a conclusion is built from.
pub record Headed (declared : List String) (fs : Fields) (head : Head) : Type 0 where
  pub predicate : text_field fs "predicate" ≡ some head.predicate
  pub version : text_field fs "version" ≡ some head.version
  pub participants : text_list (lookup fs "participants") ≡ some declared
  pub polarity : text_field fs "polarity" ≡ some head.polarity

find_head-Headed :
    (declared : List String) (fs : Fields) (head : Head)
    → find_head declared fs ≡ ok head
    → Headed declared fs head
unfolding find_head head_of
find_head-Headed declared fs head h = elim (Option-cases (text_list (lookup fs "participants"))) [
  | inl absent ↦ let never : ⊥ = ground (arith, absent, h) in elim never [ ]
  | inr (listed, e) ↦ record {
    predicate = ground arith;
    version = ground arith;
    participants = ground (arith, same_texts→eq listed declared);
    polarity = ground arith;
  }
]

pub conclude_if_true_cases :
    (truth : EvaluationTruth) (concluded : Result GroundedConclusion)
    (conclusion : Option GroundedConclusion)
    → conclude_if_true truth concluded ≡ ok conclusion
    → (is_true truth ≡ true → (c : GroundedConclusion) × (concluded ≡ ok c) × (conclusion ≡ some c))
      × (is_true truth ≡ false → conclusion ≡ none)
unfolding conclude_if_true
conclude_if_true_cases holds concluded conclusion h =
    let (c, e, h1) = >>=-eq-ok concluded _ h in ((λ _. (c, e, sym (ok_injective h1))), λ never. cc)
conclude_if_true_cases fails concluded conclusion h = ((λ never. cc), λ _. sym (ok_injective h))
conclude_if_true_cases unknown concluded conclusion h = ((λ never. cc), λ _. sym (ok_injective h))

pub check_conclusion_of_cases :
    (head : Json) (r : GroundingResult)
    → (is_true r.truth ≡ true → check_true head r r.conclusion ≡ ok tt)
    → (is_true r.truth ≡ false → is_some r.conclusion ≡ false)
    → check_conclusion_of head r ≡ ok tt
unfolding check_conclusion_of
check_conclusion_of_cases head r on_true otherwise = elim (Bool-cases (is_true r.truth)) [
  | inl yes' ↦ rw yes' (on_true yes')
  | inr no' ↦ rw no' (refuse-of_false _ (otherwise no'))
]

module _ (s : Store) (snapshot : Snapshot) (rule_id : String) (rule : RuleDefinition)
    (scopes declared : List String) (fs : Fields) (bound : Dict String) (st : State) where
  -- What a conclusion holds of the head, of the bindings and of the dependencies.
  pub record Concluded (c : GroundedConclusion) : Type 0 where
    pub head : Head
    pub headed : Headed declared fs head
    pub participants : subscript_all bound declared ≡ ok c.term.participants
    pub predicate : c.term.predicate ≡ head.predicate
    pub version : c.term.version ≡ head.version
    pub polarity : c.polarity ≡ head.polarity
    pub dependencies : c.dependencies ≡ st.dependencies

  pub conclude-Concluded :
      (c : GroundedConclusion)
      → conclude s snapshot rule_id rule scopes declared fs bound st ≡ ok c
      → Concluded c
  unfolding conclude checked_conclusion
  conclude-Concluded c h =
      let (head, e, h1) = >>=-eq-ok (find_head declared fs) _ h in
      let (named, h2) = >>-eq-ok (identifier head.predicate) h1 in
      let (fixed, h3) =
        >>-eq-ok (require (fixes snapshot.predicate_versions head.predicate head.version) _) h2 in
      let (participants, listed, h4) = >>=-eq-ok (subscript_all bound declared) _ h3 in
      let (checked, h5) = >>-eq-ok (check_conclusion _) h4 in
      let same = ok_injective h5 in
      record {
        head = head;
        headed = find_head-Headed declared fs head e;
        participants = listed ∙ ap (λ x. ok x.term.participants) same;
        predicate = sym (ap (λ x. x.term.predicate) same);
        version = sym (ap (λ x. x.term.version) same);
        polarity = sym (ap (λ x. x.polarity) same);
        dependencies = sym (ap (λ x. x.dependencies) same);
      }

  bound_participants_agrees :
      (c : GroundedConclusion)
      → Concluded c
      → bound_participants bound (lookup fs "participants") ≡ ok c.term.participants
  unfolding bound_participants
  bound_participants_agrees c w =
      let (xs, listed, read) =
        text_list_items (lookup fs "participants") declared w.headed.participants in
      ap (bound_participants bound) listed
      ∙ subscript_items-texts bound xs declared read
      ∙ w.participants

  has_text_agrees :
      (key value field_value : String)
      → text_field fs key ≡ some field_value
      → value ≡ field_value
      → has_text fs key value ≡ true
  unfolding has_text
  has_text_agrees key value field_value e same = ground (arith, e, same, eq_iff value field_value)

  -- The validation of the head accepts the conclusion.
  pub check_head_accepts :
      (r : GroundingResult) (c : GroundedConclusion)
      → conclude s snapshot rule_id rule scopes declared fs bound st ≡ ok c
      → r.bindings ≡ bound
      → r.effective_dependencies ≡ st.dependencies
      → check_head fs r c ≡ ok tt
  unfolding check_head
  check_head_accepts r c h same_bindings same_dependencies =
      let w = conclude-Concluded c h in
      >>=-of_ok _
        (ap (λ b. bound_participants b (lookup fs "participants")) same_bindings
          ∙ bound_participants_agrees c w)
        (require-pass _ (same_texts_refl c.term.participants) (
          require-pass _
            (ground (
              arith,
              has_text_agrees "predicate" c.term.predicate w.head.predicate w.headed.predicate
                  w.predicate,
              has_text_agrees "version" c.term.version w.head.version w.headed.version w.version,
              has_text_agrees "polarity" c.polarity w.head.polarity w.headed.polarity w.polarity,
            ))
            (require-of_true _ (
              subst (λ d. same_texts c.dependencies d ≡ true)
                (w.dependencies ∙ sym same_dependencies) (same_texts_refl c.dependencies)))))
