-- ===== src/Common/Retry/Steps.antt =====
-- One round of the retry loops, by the outcome of its call.
use mux_backend.Prelude.{
  ℕ, suc, ◌+◌, ◌*◌, min, ◌≡◌, refl, ◌⊎◌, inl, inr, Bool, true, false, not, ◌||◌, arith, leb, ◌==◌,
}
use mux_backend.Common.Retry.{
  Outcome, returns, throws, returned, thrown, waited, stopped, attempts_from, while_true,
}

pub Outcome-cases :
    {A E : Type 0} (o : Outcome A E) → ((a : A) × (o ≡ returns a)) ⊎ ((e : E) × (o ≡ throws e))
Outcome-cases (returns a) = inl (a, refl)
Outcome-cases (throws e) = inr (e, refl)

module _ {A E : Type 0} (operation : ℕ → Outcome A E) (retryable : E → Bool) (delay : ℕ → ℕ)
    (left attempt : ℕ) where
  pub attempts_from-returns :
      (a : A)
      → operation attempt ≡ returns a
      → attempts_from operation retryable delay (suc left) attempt
        ≡ stopped operation retryable (returned a)
  unfolding attempts_from
  attempts_from-returns a h = ground arith

  pub attempts_from-stops :
      (e : E)
      → operation attempt ≡ throws e
      → (left == 0 || not (retryable e)) ≡ true
      → attempts_from operation retryable delay (suc left) attempt
        ≡ stopped operation retryable (thrown e)
  unfolding attempts_from
  attempts_from-stops e h k = ground arith

  pub attempts_from-again :
      (e : E)
      → operation attempt ≡ throws e
      → (left == 0 || not (retryable e)) ≡ false
      → attempts_from operation retryable delay (suc left) attempt
        ≡ waited operation retryable
            (delay attempt)
            (attempts_from operation retryable delay left (attempt + 1))
  unfolding attempts_from
  attempts_from-again e h k = ground arith

module _ {A E : Type 0} (operation : ℕ → Outcome A E) (retryable : E → Bool)
    (max_attempts factor max_delay fuel attempt delay : ℕ) where
  pub while_true-returns :
      (a : A)
      → operation (attempt + 1) ≡ returns a
      → while_true operation retryable (suc fuel) max_attempts factor max_delay attempt delay
        ≡ stopped operation retryable (returned a)
  unfolding while_true
  while_true-returns a h = ground arith

  pub while_true-stops :
      (e : E)
      → operation (attempt + 1) ≡ throws e
      → (leb max_attempts (attempt + 1) || not (retryable e)) ≡ true
      → while_true operation retryable (suc fuel) max_attempts factor max_delay attempt delay
        ≡ stopped operation retryable (thrown e)
  unfolding while_true
  while_true-stops e h k = ground arith

  pub while_true-again :
      (e : E)
      → operation (attempt + 1) ≡ throws e
      → (leb max_attempts (attempt + 1) || not (retryable e)) ≡ false
      → while_true operation retryable (suc fuel) max_attempts factor max_delay attempt delay
        ≡ waited operation retryable delay (
            while_true operation retryable fuel max_attempts factor max_delay
              (attempt + 1)
              (min (delay * factor) max_delay))
  unfolding while_true
  while_true-again e h k = ground arith
