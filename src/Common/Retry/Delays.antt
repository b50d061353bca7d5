-- ===== src/Common/Retry/Delays.antt =====
-- How long the retry loops wait.
use mux_backend.Prelude.{
  ℕ, zero, suc, ◌+◌, ◌-◌, ◌*◌, ◌^◌, ◌≤◌, ◌<◌, min, max, ◌≡◌, refl, inl, inr, Bool, not, ◌||◌, List,
  [], ◌∷◌, arith, ◌==◌, Bool-cases, length,
}
use native.Mathlib.Nat.{pow-suc}
use mux_backend.Common.Retry.Steps.{
  attempts_from-returns, attempts_from-stops, attempts_from-again, Outcome-cases,
}
use mux_backend.Common.Retry.{
  Outcome, Ended, returned, thrown, Run, waited, stopped, attempts_from, retry_with_backoff,
  execute,
}

abbrev pub sum : List ℕ → ℕ
sum [] = 0
sum (d ∷ ds) = d + sum ds

-- Every delay of a list is at most n.
abbrev pub AtMost : ℕ → List ℕ → Type 0
AtMost n [] = Unit {0}
AtMost n (d ∷ ds) = (d ≤ n) × AtMost n ds

module _ {A E : Type 0} (operation : ℕ → Outcome A E) (retryable : E → Bool) where
  -- An induction over the rounds of a loop: P holds of a run that stops at its first call, and is
  -- kept by a round that waits.
  attempts_from-rounds {ℓ} :
      (P : ℕ → Run A E → Type ℓ) (delay : ℕ → ℕ)
      → ((k : ℕ) (e : Ended A E) → P k (stopped operation retryable e))
      → ((k : ℕ) (r : Run A E) → P (k + 1) r → P k (waited operation retryable (delay k) r))
      → (left k : ℕ) → P k (attempts_from operation retryable delay (suc left) k)
  attempts_from-rounds P delay stop wait zero k = elim (Outcome-cases (operation k)) [
    | inl (a, e) ↦
        rw (attempts_from-returns operation retryable delay zero k a e) (stop k (returned a))
    | inr (x, e) ↦
        rw (attempts_from-stops operation retryable delay zero k x e refl) (stop k (thrown x))
  ]
  attempts_from-rounds P delay stop wait (suc left) k = elim (Outcome-cases (operation k)) [
    | inl (a, e) ↦
        rw (attempts_from-returns operation retryable delay (suc left) k a e) (stop k (returned a))
    | inr (x, e) ↦ elim (Bool-cases (suc left == 0 || not (retryable x))) [
      | inl last ↦
          rw (attempts_from-stops operation retryable delay (suc left) k x e last)
            (stop k (thrown x))
      | inr go ↦
          rw (attempts_from-again operation retryable delay (suc left) k x e go)
            (wait k _ (attempts_from-rounds P delay stop wait left (k + 1)))
    ]
  ]

  -- Between two calls there is one delay, and each delay is at most the configured maximum.
  execute-delays :
      (max_attempts base_delay max_delay : ℕ)
      → let r = execute operation retryable max_attempts base_delay max_delay in
        (length r.delays + 1 ≡ r.calls) × AtMost max_delay r.delays
  unfolding execute
  execute-delays m base max_delay = rounds m
    where
      bounded :
          (n : ℕ)
          → let r =
              attempts_from operation retryable
                (λ k. min (base * 2 ^ (k - 1)) max_delay)
                (suc n)
                1 in
            (length r.delays + 1 ≡ r.calls) × AtMost max_delay r.delays
      bounded n =
          attempts_from-rounds (λ k r. (length r.delays + 1 ≡ r.calls) × AtMost max_delay r.delays)
            (λ k. min (base * 2 ^ (k - 1)) max_delay) (λ k e. (refl, tt))
            (λ k r h. (omega arith, (omega arith, h.1))) n 1

      at_least_one : (n : ℕ) → max 1 (suc n) ≡ suc n
      at_least_one n = omega arith

      rounds :
          (n : ℕ)
          → let r =
              attempts_from operation retryable
                (λ k. min (base * 2 ^ (k - 1)) max_delay)
                (max 1 n)
                1 in
            (length r.delays + 1 ≡ r.calls) × AtMost max_delay r.delays
      rounds zero = bounded 0
      rounds (suc n) = rw (at_least_one n) (bounded n)

  -- The delays of a run double: together with one base delay they make 2 ^ n base delays, where n is
  -- their number.
  retry_with_backoff-delays :
      (max_attempts base_delay : ℕ)
      → let r = retry_with_backoff operation retryable max_attempts base_delay in
        base_delay + sum r.delays ≡ base_delay * 2 ^ length r.delays
  unfolding retry_with_backoff attempts_from
  retry_with_backoff-delays zero base = omega arith
  retry_with_backoff-delays (suc m) base =
      let h =
        attempts_from-rounds
          (λ k r.
            0 < k → base * 2 ^ (k - 1) + sum r.delays ≡ base * 2 ^ (k - 1) * 2 ^ length r.delays)
          (λ k. base * 2 ^ (k - 1)) (λ k e h. omega arith) (λ k r ih h. doubled k r ih h) m 1
          (omega arith) in
      start base _ _ h
    where
      start : (b n l : ℕ) → b * 2 ^ (1 - 1) + n ≡ b * 2 ^ (1 - 1) * 2 ^ l → b + n ≡ b * 2 ^ l
      start b n l h = omega arith

      next : (k : ℕ) → 0 < k → 2 ^ (k + 1 - 1) ≡ 2 ^ (k - 1) * 2
      next zero h = absurd (omega arith)
      next (suc j) h =
          let e : suc j + 1 - 1 ≡ suc j = omega arith in
          let d : suc j - 1 ≡ j = omega arith in rw (e, d) (pow-suc 2 j)

      doubled :
          (k : ℕ) (r : Run A E)
          → (0 < k + 1
              → base * 2 ^ (k + 1 - 1) + sum r.delays
                ≡ base * 2 ^ (k + 1 - 1) * 2 ^ length r.delays)
          → 0 < k
          → base * 2 ^ (k - 1) + (base * 2 ^ (k - 1) + sum r.delays)
            ≡ base * 2 ^ (k - 1) * 2 ^ suc (length r.delays)
      doubled k r ih h =
          let p = next k h in
          let q = pow-suc 2 (length r.delays) in
          let i = rw p at (ih (omega arith)) in rw q (omega arith)
