-- ===== src/Base/Each.antt =====
-- What holds of each element of a list, what holds of each value that a call comes to, and calls that meet no null pointer.
use mathlib.Core.Path.{◌≡◌, refl, ap, subst}
use mathlib.Core.Bool.{Bool, true, false}
use mathlib.Core.List.{List, [], ◌∷◌}
use mathlib.Core.Option.{Option, none, some}
use native.Mathlib.Omega.{arith}
use lancet_tool.Base.Tests.{if◌then◌else◌}
use lancet_tool.Base.Failure.{Outcome, ok, fault, Fault, ◌>>=◌}

abbrev pub All : {A : Type 0} → (A → Type 0) → List A → Type 0
All P [] = Unit {0}
All P (x ∷ xs) = P x × All P xs

-- The value, if there is one, has the property.
pub record Each {ℓ κ} {A : Type ℓ} (P : A → Type κ) (o : Outcome A) : Type (ℓ ⊔ κ) where
  pub each : (a : A) → o ≡ ok a → P a

pub Each-ok {ℓ κ} : {A : Type ℓ} (P : A → Type κ) (a : A) → P a → Each P (ok a)
Each-ok P a h = record {
  each = λ b e. subst P (ap (λ (o : Outcome _). elim o [ ok x ↦ x | fault f ↦ a ]) e) h;
}

pub Each-fault {ℓ κ} : {A : Type ℓ} (P : A → Type κ) (e : Fault) → Each P (fault e)
Each-fault P e = record { each = λ a h. absurd (ground arith) }

pub Each-bind {ℓ κ μ ν} :
    {A : Type ℓ} {B : Type κ} (P : A → Type μ) {Q : B → Type ν} {o : Outcome A} {f : A → Outcome B}
    → Each P o
    → ((a : A) → P a → Each Q (f a))
    → Each Q (o >>= f)
Each-bind P {o = ok a} h k = k a (h.each a refl)
Each-bind P {Q = Q} {o = fault e} h k = Each-fault Q e

-- What comes before does not matter.
pub Each-after {ℓ κ ν} :
    {A : Type ℓ} {B : Type κ} {Q : B → Type ν} (o : Outcome A) {f : A → Outcome B}
    → ((a : A) → Each Q (f a))
    → Each Q (o >>= f)
Each-after (ok a) k = k a
Each-after {Q = Q} (fault e) k = Each-fault Q e

pub Each-if {ℓ κ} :
    {A : Type ℓ} {P : A → Type κ} (b : Bool) {x y : Outcome A}
    → (b ≡ true → Each P x)
    → (b ≡ false → Each P y)
    → Each P (if b then x else y)
Each-if true h k = h refl
Each-if false h k = k refl

pub Each-weaken {ℓ κ ν} :
    {A : Type ℓ} {P : A → Type κ} {Q : A → Type ν} {o : Outcome A}
    → Each P o
    → ((a : A) → P a → Q a)
    → Each Q o
Each-weaken h k = record { each = λ a e. k a (h.each a e) }

pub Each-both {ℓ κ ν} :
    {A : Type ℓ} {P : A → Type κ} {Q : A → Type ν} {o : Outcome A}
    → Each P o
    → Each Q o
    → Each (λ a. P a × Q a) o
Each-both h k = record { each = λ a e. (h.each a e, k.each a e) }

-- A branch on an optional value.
pub Each-option {ℓ κ ν} :
    {A : Type ℓ} {B : Type κ} {Q : B → Type ν} (o : Option A) {x : Outcome B} {f : A → Outcome B}
    → Each Q x
    → ((a : A) → Each Q (f a))
    → Each Q (elim o [ none ↦ x | some a ↦ f a ])
Each-option none h k = h
Each-option (some a) h k = k a

-- No null pointer is read through or called.
pub data HasNoNull {ℓ} {A : Type ℓ} : Outcome A → Type ℓ where
  is_ok : (a : A) → HasNoNull (ok a)
  is_assertion : HasNoNull (fault Fault.assertion)
  is_out_of_bounds : HasNoNull (fault Fault.out_of_bounds)
  is_div_by_zero : HasNoNull (fault Fault.div_by_zero)
  is_out_of_fuel : HasNoNull (fault Fault.out_of_fuel)

pub HasNoNull-bind {ℓ κ} :
    {A : Type ℓ} {B : Type κ} {o : Outcome A} {f : A → Outcome B}
    → HasNoNull o
    → ((a : A) → HasNoNull (f a))
    → HasNoNull (o >>= f)
HasNoNull-bind (is_ok a) k = k a
HasNoNull-bind is_assertion k = is_assertion
HasNoNull-bind is_out_of_bounds k = is_out_of_bounds
HasNoNull-bind is_div_by_zero k = is_div_by_zero
HasNoNull-bind is_out_of_fuel k = is_out_of_fuel

pub HasNoNull-if {ℓ} :
    {A : Type ℓ} (b : Bool) {x y : Outcome A}
    → HasNoNull x
    → HasNoNull y
    → HasNoNull (if b then x else y)
HasNoNull-if true h k = h
HasNoNull-if false h k = k
