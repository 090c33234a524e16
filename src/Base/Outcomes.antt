-- ===== src/Base/Outcomes.antt =====
-- Results of code that may throw, or trip over an `assert`, a null pointer or an empty optional.
-- No function of the program catches, so a fault ends the process and the state is not kept.
use mathlib.Core.Path.{◌≡◌, refl}
use mathlib.Core.Logic.{◌⊎◌, inl, inr}
use mathlib.Core.Bool.{Bool, true, false}
use mathlib.Core.Option.{Option, none, some}

pub data Fault : Type 0 where
  logic_error runtime_error out_of_range length_error : Fault
  assertion bad_optional null_pointer out_of_fuel : Fault

pub data Outcome {ℓ} (A : Type ℓ) : Type ℓ where
  ok : A → Outcome A
  fault : Fault → Outcome A

infixl 5 ◌>>=◌ ◌>>◌
abbrev pub ◌>>=◌ {ℓ κ} : {B : Type κ} {A : Type ℓ} → Outcome A → (A → Outcome B) → Outcome B
fault e >>= rest = fault e
ok a >>= rest = rest a

abbrev pub ◌>>◌ {ℓ} : {B : Type ℓ} → Outcome (Unit {0}) → Outcome B → Outcome B
m >> k = m >>= λ _. k

abbrev pub require : Bool → Fault → Outcome (Unit {0})
require true e = ok tt
require false e = fault e

abbrev pub value_or_fault {ℓ} : {A : Type ℓ} → Option A → Fault → Outcome A
value_or_fault none e = fault e
value_or_fault (some a) e = ok a

-- Where a chain ends well, so did its first part, and the rest went on from there.
pub >>=-eq-ok {ℓ κ} :
    {A : Type ℓ} {B : Type κ} (first : Outcome A) (rest : A → Outcome B) {last : B}
    → (first >>= rest) ≡ ok last
    → (middle : A) × (first ≡ ok middle) × (rest middle ≡ ok last)
>>=-eq-ok (fault e) rest h = cc
>>=-eq-ok (ok middle) rest h = (middle, refl, h)

pub Outcome-cases {ℓ} :
    {A : Type ℓ} (m : Outcome A) → ((a : A) × (m ≡ ok a)) ⊎ ((e : Fault) × (m ≡ fault e))
Outcome-cases (ok a) = inl (a, refl)
Outcome-cases (fault e) = inr (e, refl)
