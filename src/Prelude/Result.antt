-- ===== src/Prelude/Result.antt =====
-- Errors as values: `AppError` with its status, message and code (backend/src/services/error.ts,
-- faucet/src/services/error.ts), and every other thrown error.
use Prim.Native.Nat.{ℕ}
use Prim.Native.String.{String}
use mathlib.Core.Path.{◌≡◌, refl}
use mathlib.Core.Bool.{Bool, true, false}
use mathlib.Core.Option.{Option}
use mathlib.Core.Logic.{◌⊎◌, inl, inr}
use ckb_dex.Prelude.{if◌then◌else◌}

pub data Failure : Type 0 where
  app_error : (status_code : ℕ) (message : String) (code : Option String) → Failure
  other_error : (message : String) → Failure

-- What a call leaves: the value that it returns, or what it throws.
pub data Result {ℓ} (Value : Type ℓ) : Type ℓ where
  ok : (returned : Value) → Result Value
  err : (thrown : Failure) → Result Value

infixl 5 ◌>>=◌
infixl 5 ◌>>◌
-- `await` of a step and of what follows it
abbrev pub ◌>>=◌ {ℓ κ} :
    {Value : Type ℓ} {Next : Type κ} → Result Value → (Value → Result Next) → Result Next
err thrown >>= continue = err thrown
ok value >>= continue = continue value

abbrev pub ◌>>◌ {κ} : {Next : Type κ} → Result (Unit {0}) → Result Next → Result Next
first >> following = first >>= (λ done. following)

-- `if (!test) throw e`
abbrev pub ensure : (test : Bool) → Failure → Result (Unit {0})
ensure test e = if test then ok tt else err e

-- Inversion of a chain of steps that succeeded.
pub >>=-eq-ok {ℓ κ} :
    {Value : Type ℓ} {Next : Type κ} (step : Result Value) (continue : Value → Result Next)
    {last : Next}
    → (step >>= continue) ≡ ok last
    → (value : Value) × (step ≡ ok value) × (continue value ≡ ok last)
>>=-eq-ok (err thrown) continue done = cc
>>=-eq-ok (ok value) continue done = (value, refl, done)

pub ensure-eq-ok {ℓ} :
    {B : Type ℓ} (t : Bool) (e : Failure) (m : Result B) {b : B}
    → (ensure t e >> m) ≡ ok b
    → (t ≡ true) × (m ≡ ok b)
ensure-eq-ok true e m h = (refl, h)
ensure-eq-ok false e m h = cc

pub ensure_last : (t : Bool) (e : Failure) {u : Unit {0}} → ensure t e ≡ ok u → t ≡ true
ensure_last true e h = refl
ensure_last false e h = cc

-- To split on what a step left and keep the equation.
pub Result-cases {ℓ} :
    {Value : Type ℓ} (step : Result Value)
    → ((value : Value) × (step ≡ ok value)) ⊎ ((e : Failure) × (step ≡ err e))
Result-cases (ok value) = inl (value, refl)
Result-cases (err e) = inr (e, refl)
