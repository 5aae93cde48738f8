-- ===== src/Prelude/Outcome.antt =====
-- How an operation of the program ends: with a value, with an error that it hands to its caller, or
-- with a panic.
use mathlib.Core.Path.{◌≡◌, refl, ap}
use mathlib.Core.Logic.{◌⊎◌, inl, inr}
use mathlib.Core.Option.{Option, none, some}
use mathlib.Core.Bool.{Bool, true, false}

pub data Outcome {ℓ} (A : Type ℓ) : Type ℓ where
  ok : A → Outcome A
  err panic : Outcome A

infixl 5 ◌>>=◌ ◌>>◌
abbrev pub ◌>>=◌ {ℓ κ} : {A : Type ℓ} → {B : Type κ} → Outcome A → (A → Outcome B) → Outcome B
panic >>= rest = panic
err >>= rest = err
ok value >>= rest = rest value

abbrev pub ◌>>◌ {ℓ} : {B : Type ℓ} → Outcome (Unit {0}) → Outcome B → Outcome B
first >> second = first >>= λ done. second

-- Arithmetic that may panic, and a parse or a statement that may fail.
abbrev pub checked {ℓ} : {A : Type ℓ} → Option A → Outcome A
checked none = panic
checked (some a) = ok a

abbrev pub parsed {ℓ} : {A : Type ℓ} → Option A → Outcome A
parsed none = err
parsed (some a) = ok a

abbrev pub require : Bool → Outcome (Unit {0})
require true = ok tt
require false = err

-- An operation that returned came through its first step.
pub >>=-eq-ok {ℓ κ} :
    {A : Type ℓ}
    → {B : Type κ} → (first : Outcome A) (rest : A → Outcome B) {b : B} → (first >>= rest) ≡ ok b
    → (a : A) × (first ≡ ok a) × (rest a ≡ ok b)
>>=-eq-ok panic rest h = cc
>>=-eq-ok err rest h = cc
>>=-eq-ok (ok value) rest h = (value, refl, h)

-- Steps that end in no error do not together.
pub >>=-no_err {ℓ κ} :
    {A : Type ℓ}
    → {B : Type κ} → (first : Outcome A) (rest : A → Outcome B) → (first ≡ err → ⊥)
    → ((a : A) → rest a ≡ err → ⊥)
    → (first >>= rest) ≡ err
    → ⊥
>>=-no_err panic rest f g h = cc
>>=-no_err err rest f g h = f refl
>>=-no_err (ok value) rest f g h = g value h

abbrev or_default {ℓ} : {A : Type ℓ} → A → Outcome A → A
or_default a (ok b) = b
or_default a err = a
or_default a panic = a

pub ok-injective {ℓ} : {A : Type ℓ} {a b : A} → ok a ≡ ok b → a ≡ b
ok-injective {A} {a} h = ap (or_default a) h

pub checked-eq-ok {ℓ} : {A : Type ℓ} (o : Option A) {a : A} → checked o ≡ ok a → o ≡ some a
checked-eq-ok none h = cc
checked-eq-ok (some b) h = ap some (ok-injective h)

pub parsed-is_some {ℓ} : {A : Type ℓ} (o : Option A) {a : A} → parsed o ≡ ok a → o ≡ some a
parsed-is_some none h = cc
parsed-is_some (some b) h = ap some (ok-injective h)

pub Outcome-cases {ℓ} :
    {A : Type ℓ} (o : Outcome A) → ((a : A) × (o ≡ ok a)) ⊎ ((o ≡ err) ⊎ (o ≡ panic))
Outcome-cases (ok a) = inl (a, refl)
Outcome-cases err = inr (inl refl)
Outcome-cases panic = inr (inr refl)
