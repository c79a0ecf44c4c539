-- ===== src/Common/Results.antt =====
-- Python exceptions: a function that may raise returns a `Result`, and one that also changes state
-- is an `Exec`. What was written before a raise stays written, so the state comes back beside the
-- error too.
use Prim.Native.String.{String}
use mathlib.Core.Bool.{Bool, true, false}
use mathlib.Core.Option.{Option, none, some}
use mathlib.Core.Logic.{◌⊎◌, inl, inr}
use mathlib.Core.Path.{◌≡◌, refl}

pub data Error : Type 0 where
  value_error runtime_error key_error : String → Error
  integrity_error assertion_error stop_iteration file_not_found : Error
  invalid_params task_not_found task_not_cancelable content_type_not_supported : String → Error
  remote_task_error remote_task_canceled : String → Error
  canceled_error timeout_error : Error

pub data Result {ℓ} (A : Type ℓ) : Type ℓ where
  ok : A → Result A
  err : Error → Result A

-- `if not b: raise e`
abbrev pub guard : Bool → Error → Result (Unit {0})
guard true e = ok tt
guard false e = err e

-- `if x is None: raise e`
abbrev pub or_raise {ℓ} : {A : Type ℓ} → Option A → Error → Result A
or_raise none e = err e
or_raise (some a) e = ok a

infixl 10 ◌>>=◌ ◌>>◌
-- The rest of the code runs on the value, if there is one.
abbrev pub ◌>>=◌ {ℓ κ} : {A : Type ℓ} {B : Type κ} → Result A → (A → Result B) → Result B
err raised >>= rest = err raised
ok value >>= rest = rest value

abbrev pub ◌>>◌ {ℓ} : {B : Type ℓ} → Result (Unit {0}) → Result B → Result B
first >> second = first >>= λ _. second

pub Result-cases {ℓ} :
    {A : Type ℓ} (r : Result A) → ((a : A) × (r ≡ ok a)) ⊎ ((e : Error) × (r ≡ err e))
Result-cases (err e) = inr (e, refl)
Result-cases (ok a) = inl (a, refl)

-- A block that succeeds did so in its first step and in the rest.
pub >>=-eq-ok {ℓ κ} :
    {A : Type ℓ} {B : Type κ} (r : Result A) (rest : A → Result B) {b : B}
    → (r >>= rest) ≡ ok b
    → (a : A) × (r ≡ ok a) × (rest a ≡ ok b)
>>=-eq-ok (err raised) rest h = cc
>>=-eq-ok (ok value) rest h = (value, refl, h)

pub ok-injective {ℓ} : {A : Type ℓ} {a b : A} → ok a ≡ ok b → a ≡ b
ok-injective h = cc h
