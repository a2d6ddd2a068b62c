-- ===== src/Base/Failure.antt =====
-- What a call of the C code can come to: a value, or the fault that stops the process.
use mathlib.Core.Path.{◌≡◌, refl}
use native.Mathlib.Omega.{arith}
use mathlib.Core.Bool.{Bool, true, false}

pub data Fault : Type 0 where
  -- `assert` or `abort`
  assertion : Fault
  -- a read outside the memory that the caller handed over
  out_of_bounds : Fault
  -- a division by zero
  div_by_zero : Fault
  -- a null pointer that is read through, or called
  null_pointer : Fault
  -- the fuel of the model ran out: no behaviour of the code
  out_of_fuel : Fault

pub data Outcome {ℓ} (A : Type ℓ) : Type ℓ where
  ok : A → Outcome A
  fault : Fault → Outcome A

infixl 5 ◌>>=◌ ◌>>◌
abbrev pub ◌>>=◌ {ℓ κ} : {A : Type ℓ} {B : Type κ} → Outcome A → (A → Outcome B) → Outcome B
ok a >>= f = f a
fault e >>= f = fault e

abbrev pub ◌>>◌ {ℓ} : {B : Type ℓ} → Outcome (Unit {0}) → Outcome B → Outcome B
m >> k = m >>= λ _. k

-- `assert(b)`
abbrev pub check : Bool → Outcome (Unit {0})
check true = ok tt
check false = fault assertion

-- What a call came to, where the call and what follows it come to `result`.
pub record Came {ℓ κ} {A : Type ℓ} {B : Type κ} (call : Outcome A) (next : A → Outcome B)
    (result : B) : Type (ℓ ⊔ κ) where
  pub value : A
  pub came : call ≡ ok value
  pub rest : next value ≡ ok result

pub >>=-Came {ℓ κ} :
    {A : Type ℓ} {B : Type κ} (call : Outcome A) (next : A → Outcome B) {result : B}
    → (call >>= next) ≡ ok result
    → Came call next result
>>=-Came (ok value) next both = record { value = value; came = refl; rest = both }
>>=-Came (fault why) next both = absurd (ground arith)
