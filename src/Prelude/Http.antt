-- ===== src/Prelude/Http.antt =====
-- What a handler of the service returns: a value, or the exception that it throws. The exceptions
-- are those of Nest that the modelled handlers throw, by their HTTP status; the message is left out.
use mathlib.Core.Path.{◌≡◌, refl}
use mathlib.Core.Logic.{◌⊎◌, inl, inr}
use mathlib.Core.Bool.{Bool, true, false}
use mathlib.Core.Option.{Option, none, some}

pub data Exception : Type 0 where
  bad_request unauthorized not_found forbidden conflict : Exception
  too_many_requests service_unavailable : Exception
  -- HttpException with status 422 and one of LIMIT_ERROR_CODES
  per_tx_limit_exceeded daily_limit_exceeded : Exception
  insufficient_balance : Exception
  -- KeyDecryptionException, status 422
  key_decryption_failed : Exception
  -- `new Error(…)`, or an exception of a third party
  internal_error : Exception

pub data Result {ℓ} (A : Type ℓ) : Type ℓ where
  ok : A → Result A
  throw : Exception → Result A

-- A handler over the state S. The state that it has reached is kept when it throws: what was
-- written before the exception stays written.
abbrev pub Handler {ℓ κ} : Type ℓ → Type κ → Type (ℓ ⊔ κ)
Handler S A = S → S × Result A

abbrev pub run_next {ℓ κ μ} :
    {S : Type ℓ} {A : Type κ} {B : Type μ} → S × Result A → (A → Handler S B) → S × Result B
run_next (s, ok a) f = f a s
run_next (s, throw e) f = (s, throw e)

infixl 5 ◌>>=◌ ◌>>◌
abbrev pub ◌>>=◌ {ℓ κ μ} :
    {S : Type ℓ} {A : Type κ} {B : Type μ} → Handler S A → (A → Handler S B) → Handler S B
◌>>=◌ m f s = run_next (m s) f

abbrev pub ◌>>◌ {ℓ κ} : {S : Type ℓ} {B : Type κ} → Handler S (Unit {0}) → Handler S B → Handler S B
◌>>◌ m k = m >>= λ _. k

abbrev pub return {ℓ κ} : {S : Type ℓ} {A : Type κ} → A → Handler S A
return a s = (s, ok a)

abbrev pub fail {ℓ κ} : {S : Type ℓ} {A : Type κ} → Exception → Handler S A
fail e s = (s, throw e)

-- `if (!value) throw …`
abbrev pub or_throw {ℓ κ} : {S : Type ℓ} {A : Type κ} → Option A → Exception → Handler S A
or_throw none e = fail e
or_throw (some a) e = return a

-- `if (!test) throw …`
abbrev pub guard {ℓ} : {S : Type ℓ} → Bool → Exception → Handler S (Unit {0})
guard true e = return tt
guard false e = fail e

abbrev pub is_ok {ℓ} : {A : Type ℓ} → Result A → Bool
is_ok (ok a) = true
is_ok (throw e) = false

-- To split on the result of a call and keep the equation.
pub Result-cases {ℓ} :
    {A : Type ℓ} (r : Result A) → ((a : A) × (r ≡ ok a)) ⊎ ((e : Exception) × (r ≡ throw e))
Result-cases (ok a) = inl (a, refl)
Result-cases (throw e) = inr (e, refl)
