-- ===== src/Common/Retry.antt =====
-- The retry loops: src/common/utils/retry.ts, src/transactions/transaction-retry.service.ts,
-- src/wallets/wallet-retry.service.ts, src/auth/auth-retry.helper.ts and
-- src/key-management/utils/retry.util.ts. The operation is a function from the number of the attempt
-- to its outcome; a run keeps the delays that were waited, oldest first.
pub mod Steps
pub mod Attempts
pub mod Delays
use mux_backend.Prelude.{
  ℕ, zero, suc, ◌+◌, ◌-◌, ◌*◌, ◌^◌, min, max, String, Bool, true, false, not, ◌&&◌, ◌||◌, Option,
  none, some, List, [], ◌∷◌, ltb, leb, ◌==◌, if◌then◌else◌, str_eq,
}

pub data Outcome (A E : Type 0) : Type 0 where
  returns : A → Outcome A E
  throws : E → Outcome A E

-- `exhausted` is the error behind the loop, "this should never be reached".
pub data Ended (A E : Type 0) : Type 0 where
  returned : A → Ended A E
  thrown : E → Ended A E
  exhausted : Ended A E

pub record Run (A E : Type 0) : Type 0 where
  pub ended : Ended A E
  pub calls : ℕ
  pub delays : List ℕ

-- What the loops read of an error: error.status, or error.response.status before it for the
-- transient test; error.code; error.name.
pub record ErrorInfo : Type 0 where
  pub status : Option ℕ
  pub response_status : Option ℕ
  pub code : Option String
  pub name : Option String

-- retry.ts, isRetryable: a client error is not retried.
unfoldable pub is_retryable : ErrorInfo → Bool
is_retryable e = elim e.status [ none ↦ true | some n ↦ not (leb 400 n && ltb n 500) ]

abbrev status_of : ErrorInfo → Option ℕ
status_of e = elim e.response_status [ none ↦ e.status | some n ↦ some n ]

abbrev transient_code : String → Bool
transient_code c =
    str_eq c "ECONNABORTED"
    || str_eq c "ECONNREFUSED"
    || str_eq c "ECONNRESET"
    || str_eq c "EAI_AGAIN"
    || str_eq c "ENETUNREACH"
    || str_eq c "ETIMEDOUT"
    || str_eq c "UND_ERR_CONNECT_TIMEOUT"

-- transaction-retry.service.ts and wallet-retry.service.ts, isTransient.
unfoldable pub is_transient : ErrorInfo → Bool
is_transient e = elim (status_of e) [
  | some n ↦ n == 408 || n == 425 || n == 429 || leb 500 n
  | none ↦
      if elim e.name [ none ↦ false | some n ↦ str_eq n "AbortError" ]
      then false
      else elim e.code [ none ↦ false | some c ↦ transient_code c ]
]

module _ {A E : Type 0} (operation : ℕ → Outcome A E) (retryable : E → Bool) where
  -- One more delay and one more call before a run.
  abbrev pub waited : ℕ → Run A E → Run A E
  waited d r = record r { calls = r.calls + 1; delays = d ∷ r.delays }

  abbrev pub stopped : Ended A E → Run A E
  stopped e = record { ended = e; calls = 1; delays = [] }

  -- `for (let attempt = …; attempt <= maxAttempts; attempt++)`: `left` attempts are left, and the
  -- delay after an attempt is a function of its number.
  unfoldable pub attempts_from : (ℕ → ℕ) → ℕ → ℕ → Run A E
  attempts_from delay zero attempt = record { ended = exhausted; calls = 0; delays = [] }
  attempts_from delay (suc left) attempt =
      let rest = attempts_from delay left (attempt + 1) in
      elim (operation attempt) [
        | returns a ↦ stopped (returned a)
        | throws e ↦
            if left == 0 || not (retryable e)
            then stopped (thrown e)
            else waited (delay attempt) rest
      ]

  -- retry.ts and auth-retry.helper.ts, retryWithBackoff.
  unfoldable pub retry_with_backoff : ℕ → ℕ → Run A E
  unfolding attempts_from
  retry_with_backoff max_attempts base_delay_ms =
      attempts_from (λ attempt. base_delay_ms * 2 ^ (attempt - 1)) max_attempts 1

  -- TransactionRetryService.execute and WalletRetryService.execute.
  unfoldable pub execute : ℕ → ℕ → ℕ → Run A E
  unfolding attempts_from
  execute max_attempts base_delay_ms max_delay_ms =
      attempts_from (λ attempt. min (base_delay_ms * 2 ^ (attempt - 1)) max_delay_ms)
        (max 1 max_attempts) 1

  -- retry.util.ts: `while (true)`, on fuel. `exhausted` means that the fuel ran out.
  unfoldable pub while_true : ℕ → ℕ → ℕ → ℕ → ℕ → ℕ → Run A E
  while_true zero max_attempts factor max_delay attempt delay = record {
    ended = exhausted;
    calls = 0;
    delays = [];
  }
  while_true (suc fuel) max_attempts factor max_delay attempt delay =
      let rest =
        while_true fuel max_attempts factor max_delay (attempt + 1)
          (min (delay * factor) max_delay) in
      elim (operation (attempt + 1)) [
        | returns a ↦ stopped (returned a)
        | throws e ↦
            if leb max_attempts (attempt + 1) || not (retryable e)
            then stopped (thrown e)
            else waited delay rest
      ]

  -- retry.util.ts, retryWithBackoff. The fuel is one more than the loop can use.
  unfoldable pub retry_with_options : ℕ → ℕ → ℕ → ℕ → Run A E
  unfolding while_true
  retry_with_options max_attempts initial_delay max_delay factor =
      while_true (max_attempts + 1) max_attempts factor max_delay 0 initial_delay
