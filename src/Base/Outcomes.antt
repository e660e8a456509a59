-- ===== src/Base/Outcomes.antt =====
-- How a call of the program can end. The model is that of a debug build, where a failed `ASSERT`
-- stops the program (shared/common/defines.hpp); `LOG_FATAL` throws exception::fatal_error
-- (shared/common/logger.hpp); an access outside a buffer or `std::unreachable` is undefined.
use mathlib.Core.Path.{◌≡◌, refl}
use mathlib.Core.Bool.{Bool, true, false}
use mathlib.Core.Logic.{◌⊎◌, inl, inr}

pub data Stop : Type 0 where
  assertion fatal undefined : Stop

pub data Outcome {ℓ} (Value : Type ℓ) : Type ℓ where
  stop : Stop → Outcome Value
  ok : Value → Outcome Value

-- A call that does not return ends its caller with it.
abbrev pub ◌>>=◌ {ℓ κ} :
    {Value : Type ℓ} {Next : Type κ} (call : Outcome Value) (rest : Value → Outcome Next)
    → Outcome Next
stop reason >>= rest = stop reason
ok value >>= rest = rest value

infixl 5 ◌>>=◌
abbrev pub ◌>>◌ {κ} :
    {Next : Type κ} (call : Outcome (Unit {0})) (rest : Outcome Next) → Outcome Next
stop reason >> rest = stop reason
ok done >> rest = rest

infixl 5 ◌>>◌
-- `ASSERT(expr, msg)`
abbrev pub assert : Bool → Outcome (Unit {0})
assert true = ok tt
assert false = stop assertion

-- An access that the language leaves undefined unless the test holds.
abbrev pub defined : Bool → Outcome (Unit {0})
defined true = ok tt
defined false = stop undefined

pub Outcome-cases {ℓ} :
    {Value : Type ℓ} (call : Outcome Value)
    → ((value : Value) × (call ≡ ok value)) ⊎ ((reason : Stop) × (call ≡ stop reason))
Outcome-cases (ok value) = inl (value, refl)
Outcome-cases (stop reason) = inr (reason, refl)

pub ok_injective {ℓ} :
    {Value : Type ℓ} {x y : Value} → ◌≡◌ {A = Outcome Value} (ok x) (ok y) → x ≡ y
ok_injective e = cc

-- A chain of calls that returns has returned at each call.
pub >>=-returned {ℓ κ} :
    {Value : Type ℓ} {Next : Type κ} (call : Outcome Value) (rest : Value → Outcome Next) {y : Next}
    → (call >>= rest) ≡ ok y
    → (x : Value) × (call ≡ ok x) × (rest x ≡ ok y)
>>=-returned (ok x) rest h = (x, refl, h)
>>=-returned (stop reason) rest h = absurd cc

pub >>-returned {κ} :
    {Next : Type κ} (call : Outcome (Unit {0})) (rest : Outcome Next) {y : Next}
    → (call >> rest) ≡ ok y
    → rest ≡ ok y
>>-returned (ok done) rest h = h
>>-returned (stop reason) rest h = absurd cc
