-- ===== src/Errors.antt =====
-- src/atlas/errors.py: the exceptions that the core raises, each with its message, and the results
-- of code that may raise. `key_error`, `attribute_error`, `type_error` and `stop_iteration` are
-- Python's own: a subscript whose key is absent, an attribute of `None`, an operation on a value of
-- another type, and `next` of what is exhausted. `out_of_fuel` is not the program's: a loop of the model ends
-- with it where its fuel is too small, and theorems show that the fuel given is enough.
use atlas_py.Prelude.{
  String, ◌≡◌, refl, ap, ◌∙◌, ◌⊎◌, inl, inr, Bool, true, false, Option, none, some,
}

pub data AtlasError : Type 0 where
  validation_error admission_error grounding_error unsupported_rule_error : String → AtlasError
  closed_store_error : String → AtlasError
  key_error attribute_error type_error : String → AtlasError
  stop_iteration : AtlasError
  out_of_fuel : AtlasError

pub data Result {ℓ} (A : Type ℓ) : Type ℓ where
  ok : A → Result A
  err : AtlasError → Result A

infixl 5 ◌>>=◌ ◌>>◌
-- What follows runs on the value, unless an error was raised before.
abbrev pub ◌>>=◌ {ℓ κ} : {X : Type ℓ} {Y : Type κ} → Result X → (X → Result Y) → Result Y
err raised >>= next = err raised
ok x >>= next = next x

abbrev pub ◌>>◌ {ℓ} : {Y : Type ℓ} → Result (Unit {0}) → Result Y → Result Y
first >> second = first >>= λ _. second

-- if not test: raise e
abbrev pub require : Bool → AtlasError → Result (Unit {0})
require true e = ok tt
require false e = err e

-- if test: raise e
abbrev pub refuse : Bool → AtlasError → Result (Unit {0})
refuse true e = err e
refuse false e = ok tt

-- if value is None: raise GroundingError(message)
unfoldable pub expect {ℓ} : {A : Type ℓ} → String → Option A → Result A
expect message none = err (grounding_error message)
expect message (some a) = ok a

-- A check raises or returns nothing.
abbrev pub Check : Type 0
Check = Result (Unit {0})

-- What a bind returned came from a first part that returned; the parts may stay shut.
pub >>=-eq-ok {ℓ κ} :
    {X : Type ℓ} {Y : Type κ} (first : Result X) (next : X → Result Y) {out : Y}
    → (first >>= next) ≡ ok out
    → (x : X) × (first ≡ ok x) × (next x ≡ ok out)
>>=-eq-ok (err raised) next bound = cc
>>=-eq-ok (ok x) next bound = (x, refl, bound)

pub Result-cases {ℓ} :
    {A : Type ℓ} (computed : Result A)
    → ((a : A) × (computed ≡ ok a)) ⊎ ((e : AtlasError) × (computed ≡ err e))
Result-cases (ok a) = inl (a, refl)
Result-cases (err e) = inr (e, refl)

-- A sequence that succeeds runs both of its parts.
pub >>-eq-ok {ℓ} :
    {B : Type ℓ} (m : Check) {k : Result B} {b : B} → (m >> k) ≡ ok b → (m ≡ ok tt) × (k ≡ ok b)
>>-eq-ok (ok u) h = (refl, h)
>>-eq-ok (err e) h = cc

pub require-true : {b : Bool} (e : AtlasError) → require b e ≡ ok tt → b ≡ true
require-true {b = true} e h = refl
require-true {b = false} e h = cc

-- A sequence returns what its last part returns, where the parts before it succeed.
pub require-pass {ℓ} :
    {B : Type ℓ} {b : Bool} (e : AtlasError) {k out : Result B}
    → b ≡ true
    → k ≡ out
    → (require b e >> k) ≡ out
require-pass {b = true} e h next = next
require-pass {b = false} e h next = cc

pub refuse-pass {ℓ} :
    {B : Type ℓ} {b : Bool} (e : AtlasError) {k out : Result B}
    → b ≡ false
    → k ≡ out
    → (refuse b e >> k) ≡ out
refuse-pass {b = true} e h next = cc
refuse-pass {b = false} e h next = next

pub >>=-of_ok {ℓ κ} :
    {X : Type ℓ} {Y : Type κ} {first : Result X} {x : X} (next : X → Result Y) {out : Result Y}
    → first ≡ ok x
    → next x ≡ out
    → (first >>= next) ≡ out
>>=-of_ok next e h = ap (λ m. m >>= next) e ∙ h

pub >>-of_ok {ℓ} :
    {B : Type ℓ} {m : Check} {k out : Result B} → m ≡ ok tt → k ≡ out → (m >> k) ≡ out
>>-of_ok {k} e h = ap (λ c. c >> k) e ∙ h

pub require-of_true : {b : Bool} (e : AtlasError) → b ≡ true → require b e ≡ ok tt
require-of_true e h = ap (λ b. require b e) h

pub refuse-of_false : {b : Bool} (e : AtlasError) → b ≡ false → refuse b e ≡ ok tt
refuse-of_false e h = ap (λ b. refuse b e) h

pub refuse-false : {b : Bool} (e : AtlasError) → refuse b e ≡ ok tt → b ≡ false
refuse-false {b = true} e h = cc
refuse-false {b = false} e h = refl

pub refuse-raises {ℓ} :
    {B : Type ℓ} {b : Bool} (e : AtlasError) (k : Result B) → b ≡ true → (refuse b e >> k) ≡ err e
refuse-raises e k h = ap (λ b. refuse b e >> k) h

pub require-raises {ℓ} :
    {B : Type ℓ} {b : Bool} (e : AtlasError) (k : Result B) → b ≡ false → (require b e >> k) ≡ err e
require-raises e k h = ap (λ b. require b e >> k) h
