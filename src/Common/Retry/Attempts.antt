-- ===== src/Common/Retry/Attempts.antt =====
-- How often the retry loops call the operation, and what they end with.
use mux_backend.Prelude.{
  ℕ, zero, suc, ◌+◌, ◌-◌, ◌*◌, ◌^◌, ◌<◌, min, max, ◌≡◌, refl, inl, inr, Bool, true, false, arith,
  Bool-cases,
}
use mux_backend.Common.Retry.Steps.{
  attempts_from-returns, attempts_from-stops, attempts_from-again, while_true-returns,
  while_true-stops, while_true-again, Outcome-cases,
}
use mux_backend.Common.Retry.{
  Outcome, returns, throws, Ended, returned, thrown, Run, attempts_from, retry_with_backoff,
  execute, while_true, retry_with_options,
}

module _ {A E : Type 0} (operation : ℕ → Outcome A E) (retryable : E → Bool) where
  -- What a run that begins with a given attempt, of at most `left` attempts, does: every attempt but
  -- the last throws an error that is retried; the outcome of the last one is returned or thrown; and
  -- an error is thrown only if no attempt is left or it is not one to retry.
  pub data Tries : ℕ → ℕ → Ended A E → ℕ → Type 0 where
    success :
        {left attempt : ℕ} (a : A)
        → operation attempt ≡ returns a
        → Tries (suc left) attempt (returned a) 1
    last_error : {attempt : ℕ} (e : E) → operation attempt ≡ throws e → Tries 1 attempt (thrown e) 1
    refused :
        {left attempt : ℕ} (e : E)
        → operation attempt ≡ throws e
        → retryable e ≡ false
        → Tries (suc left) attempt (thrown e) 1
    again :
        {left attempt calls : ℕ} {end : Ended A E} (e : E)
        → operation attempt ≡ throws e
        → retryable e ≡ true
        → Tries left (attempt + 1) end calls
        → Tries (suc left) attempt end (calls + 1)

  abbrev pub RunTries : ℕ → ℕ → Run A E → Type 0
  RunTries left attempt r = Tries left attempt r.ended r.calls

  at_least_one : (m : ℕ) → max 1 (suc m) ≡ suc m
  at_least_one m = omega arith

  attempts_from-Tries :
      (delay : ℕ → ℕ) (left attempt : ℕ)
      → RunTries (suc left) attempt (attempts_from operation retryable delay (suc left) attempt)
  attempts_from-Tries delay zero attempt = elim (Outcome-cases (operation attempt)) [
    | inl (a, e) ↦
        rw (attempts_from-returns operation retryable delay zero attempt a e) (success a e)
    | inr (x, e) ↦
        rw (attempts_from-stops operation retryable delay zero attempt x e refl) (last_error x e)
  ]
  attempts_from-Tries delay (suc left) attempt = elim (Outcome-cases (operation attempt)) [
    | inl (a, e) ↦
        rw (attempts_from-returns operation retryable delay (suc left) attempt a e) (success a e)
    | inr (x, e) ↦ elim (Bool-cases (retryable x)) [
      | inr never ↦
          rw (attempts_from-stops operation retryable delay (suc left) attempt x e (ground arith))
            (refused x e never)
      | inl go ↦
          rw (attempts_from-again operation retryable delay (suc left) attempt x e (ground arith))
            (again x e go (attempts_from-Tries delay left (attempt + 1)))
    ]
  ]

  while_true-Tries :
      (max_attempts factor max_delay fuel left attempt delay : ℕ)
      → left + 1 + attempt ≡ max 1 max_attempts
      → left < fuel
      → RunTries
          (suc left)
          (attempt + 1)
          (while_true operation retryable fuel max_attempts factor max_delay attempt delay)
  while_true-Tries m factor max_delay zero left attempt delay h f = absurd (omega arith)
  while_true-Tries m factor max_delay (suc fuel) zero attempt delay h f =
      elim (Outcome-cases (operation (attempt + 1))) [
        | inl (a, e) ↦
            rw (while_true-returns operation retryable m factor max_delay fuel attempt delay a e)
              (success a e)
        | inr (x, e) ↦
            rw
              (while_true-stops operation retryable m factor max_delay fuel attempt delay x e
                (ground arith))
              (last_error x e)
      ]
  while_true-Tries m factor max_delay (suc fuel) (suc left) attempt delay h f =
      elim (Outcome-cases (operation (attempt + 1))) [
        | inl (a, e) ↦
            rw (while_true-returns operation retryable m factor max_delay fuel attempt delay a e)
              (success a e)
        | inr (x, e) ↦ elim (Bool-cases (retryable x)) [
          | inr never ↦
              rw
                (while_true-stops operation retryable m factor max_delay fuel attempt delay x e
                  (ground arith))
                (refused x e never)
          | inl go ↦
              rw
                (while_true-again operation retryable m factor max_delay fuel attempt delay x e
                  (ground arith))
                (again x e go (
                  while_true-Tries m factor max_delay fuel left (attempt + 1) _ (omega arith)
                    (omega arith)))
        ]
      ]

  -- The loops of retry.ts and auth-retry.helper.ts (with at least one attempt), of the transaction
  -- and wallet retry services, and of retry.util.ts all do the same calls: attempts 1, 2, … up to the
  -- maximum, the last two loops one attempt at least. Each error before the last call is one to
  -- retry; the run ends with the outcome of the last call, and with an error only if no attempt is
  -- left or it is not one to retry.
  pub retry-Tries :
      (max_attempts base_delay max_delay factor : ℕ)
      → (0 < max_attempts
          → RunTries max_attempts 1
              (retry_with_backoff operation retryable max_attempts base_delay))
        × RunTries
            (max 1 max_attempts)
            1
            (execute operation retryable max_attempts base_delay max_delay)
        × RunTries
            (max 1 max_attempts)
            1
            (retry_with_options operation retryable max_attempts base_delay max_delay factor)
  unfolding retry_with_backoff execute retry_with_options
  retry-Tries m base max_delay factor = (λ h. plain m h, capped m, options m)
    where
      plain :
          (m : ℕ)
          → 0 < m
          → RunTries m 1 (attempts_from operation retryable (λ k. base * 2 ^ (k - 1)) m 1)
      plain zero h = absurd (omega arith)
      plain (suc m) h = attempts_from-Tries (λ k. base * 2 ^ (k - 1)) m 1

      capped :
          (m : ℕ)
          → RunTries (max 1 m) 1 (
              attempts_from operation retryable
                (λ k. min (base * 2 ^ (k - 1)) max_delay)
                (max 1 m)
                1)
      capped zero = attempts_from-Tries (λ k. min (base * 2 ^ (k - 1)) max_delay) 0 1
      capped (suc m) =
          rw (at_least_one m) (attempts_from-Tries (λ k. min (base * 2 ^ (k - 1)) max_delay) m 1)

      options :
          (m : ℕ)
          → RunTries (max 1 m) 1 (while_true operation retryable (m + 1) m factor max_delay 0 base)
      options zero = while_true-Tries zero factor max_delay 1 0 0 base refl (omega arith)
      options (suc m) = rw (at_least_one m) (
          while_true-Tries (suc m) factor max_delay (suc m + 1) m 0 base (omega arith)
            (omega arith))
