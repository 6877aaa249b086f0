-- ===== src/Store/Supersede/Domain.antt =====
-- store.py: `_supersession_slot`, as the equalities that two records of one slot satisfy.
use atlas_py.Prelude.{String, true, ◌≡◌, ◌↔◌, refl, ◌==◌, eq_iff, arith}
use atlas_py.Values.{Value, symbol, integer, finite_set_symbol, sequence_symbol}
use atlas_py.Model.Knowledge.{KnowledgeRecord, property, relation}
use atlas_py.Vocabulary.Growth.{same_texts_iff}
use atlas_py.Store.Supersede.{same_kind, same_slot}

-- The name of the class of a value.
abbrev pub class_name : Value → String
class_name (symbol a) = "Symbol"
class_name (integer a) = "Integer"
class_name (finite_set_symbol a) = "FiniteSetSymbol"
class_name (sequence_symbol a) = "SequenceSymbol"

-- Two records say something of the same: a property of one description, with a value of one class,
-- or a relation between the same participants in the same order.
abbrev pub SameDomain : KnowledgeRecord → KnowledgeRecord → Type 0
SameDomain (property a) (property b) =
    (a.description ≡ b.description)
    × (a.property ≡ b.property)
    × (a.version ≡ b.version)
    × (class_name a.value ≡ class_name b.value)
SameDomain (relation a) (relation b) =
    (a.predicate ≡ b.predicate)
    × (a.version ≡ b.version)
    × (a.participants ≡ b.participants)
    × (a.polarity ≡ b.polarity)
SameDomain (property a) (relation b) = ⊥
SameDomain (relation a) (property b) = ⊥

same_kind-class_name : (a b : Value) → same_kind a b ≡ (class_name a == class_name b)
unfolding same_kind
same_kind-class_name (symbol a) (symbol b) = refl
same_kind-class_name (symbol a) (integer b) = refl
same_kind-class_name (symbol a) (finite_set_symbol b) = refl
same_kind-class_name (symbol a) (sequence_symbol b) = refl
same_kind-class_name (integer a) (symbol b) = refl
same_kind-class_name (integer a) (integer b) = refl
same_kind-class_name (integer a) (finite_set_symbol b) = refl
same_kind-class_name (integer a) (sequence_symbol b) = refl
same_kind-class_name (finite_set_symbol a) (symbol b) = refl
same_kind-class_name (finite_set_symbol a) (integer b) = refl
same_kind-class_name (finite_set_symbol a) (finite_set_symbol b) = refl
same_kind-class_name (finite_set_symbol a) (sequence_symbol b) = refl
same_kind-class_name (sequence_symbol a) (symbol b) = refl
same_kind-class_name (sequence_symbol a) (integer b) = refl
same_kind-class_name (sequence_symbol a) (finite_set_symbol b) = refl
same_kind-class_name (sequence_symbol a) (sequence_symbol b) = refl

same_kind_iff : (a b : Value) → (same_kind a b ≡ true) ↔ (class_name a ≡ class_name b)
same_kind_iff a b = rw (same_kind-class_name a b) (eq_iff (class_name a) (class_name b))

pub same_slot_iff : (a b : KnowledgeRecord) → (same_slot a b ≡ true) ↔ SameDomain a b
unfolding same_slot
same_slot_iff (property a) (property b) = (
  λ h. ground (
    arith,
    h,
    same_kind_iff a.value b.value,
    eq_iff a.description b.description,
    eq_iff a.property b.property,
    eq_iff a.version b.version,
  ),
  λ h. ground (
    arith,
    h,
    same_kind_iff a.value b.value,
    eq_iff a.description b.description,
    eq_iff a.property b.property,
    eq_iff a.version b.version,
  ),
)
same_slot_iff (relation a) (relation b) = (
  λ h. ground (
    arith,
    h,
    same_texts_iff a.participants b.participants,
    eq_iff a.predicate b.predicate,
    eq_iff a.polarity b.polarity,
    eq_iff a.version b.version,
  ),
  λ h. ground (
    arith,
    h,
    same_texts_iff a.participants b.participants,
    eq_iff a.predicate b.predicate,
    eq_iff a.polarity b.polarity,
    eq_iff a.version b.version,
  ),
)
same_slot_iff (property a) (relation b) = (λ h. cc, λ h. absurd h)
same_slot_iff (relation a) (property b) = (λ h. cc, λ h. absurd h)
