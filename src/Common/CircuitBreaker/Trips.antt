-- ===== src/Common/CircuitBreaker/Trips.antt =====
-- When the circuit opens and when it lets calls through (circuit-breaker.ts).
use mux_backend.Prelude.{
  ℕ, ◌+◌, ◌≤◌, ◌<◌, ◌≡◌, refl, ap, ◌∙◌, ◌≢◌, ◌↔◌, Option, some, List, [], ◌∷◌, arith,
}
use mux_backend.Common.CircuitBreaker.{
  closed, CircuitBreaker, new, assert_closed, record_success, record_failure,
}

-- What a client does with a breaker: asks before a call, and reports its outcome.
pub data Event : Type 0 where
  asks fails : ℕ → Event
  succeeds : Event

pub apply : CircuitBreaker → Event → CircuitBreaker
apply b (asks now) = (assert_closed now b).0
apply b (fails now) = record_failure now b
apply b succeeds = record_success b

pub run : CircuitBreaker → List Event → CircuitBreaker
run b [] = b
run b (e ∷ es) = run (apply b e) es

-- The circuit is closed exactly as long as the failures stay below the threshold.
pub record IsValid (b : CircuitBreaker) : Type 0 where
  pub below : b.state ≡ closed → b.consecutive_failures < b.failure_threshold
  pub reached : b.state ≢ closed → b.failure_threshold ≤ b.consecutive_failures
  pub positive : 0 < b.failure_threshold

apply-IsValid : (b : CircuitBreaker) (e : Event) → IsValid b → IsValid (apply b e)
unfolding apply assert_closed record_failure record_success
apply-IsValid b (asks now) v = ground arith
apply-IsValid b (fails now) v = ground arith
apply-IsValid b succeeds v = ground arith

run-IsValid : (b : CircuitBreaker) (es : List Event) → IsValid b → IsValid (run b es)
unfolding run
run-IsValid b [] v = v
run-IsValid b (e ∷ es) v = run-IsValid (apply b e) es (apply-IsValid b e v)

-- The failures since the last success, on top of n.
pub trailing : ℕ → List Event → ℕ
trailing n [] = n
trailing n (asks now ∷ es) = trailing n es
trailing n (fails now ∷ es) = trailing (n + 1) es
trailing n (succeeds ∷ es) = trailing 0 es

apply_asks :
    (b : CircuitBreaker) (now : ℕ)
    → ((apply b (asks now)).consecutive_failures ≡ b.consecutive_failures)
      × ((apply b (asks now)).failure_threshold ≡ b.failure_threshold)
unfolding apply assert_closed
apply_asks b now = ground arith

apply_fails :
    (b : CircuitBreaker) (now : ℕ)
    → ((apply b (fails now)).consecutive_failures ≡ b.consecutive_failures + 1)
      × ((apply b (fails now)).failure_threshold ≡ b.failure_threshold)
unfolding apply record_failure
apply_fails b now = ground arith

apply_succeeds :
    (b : CircuitBreaker)
    → ((apply b succeeds).consecutive_failures ≡ 0)
      × ((apply b succeeds).failure_threshold ≡ b.failure_threshold)
unfolding apply record_success
apply_succeeds b = ground arith

run-trailing :
    (b : CircuitBreaker) (es : List Event)
    → ((run b es).consecutive_failures ≡ trailing b.consecutive_failures es)
      × ((run b es).failure_threshold ≡ b.failure_threshold)
unfolding run trailing
run-trailing b [] = (refl, refl)
run-trailing b (asks now ∷ es) =
    ground (arith, run-trailing (apply b (asks now)) es, apply_asks b now)
run-trailing b (fails now ∷ es) =
    ground (arith, run-trailing (apply b (fails now)) es, apply_fails b now)
run-trailing b (succeeds ∷ es) =
    ground (arith, run-trailing (apply b succeeds) es, apply_succeeds b)

new-IsValid :
    (threshold : ℕ) (reset : Option ℕ) → 0 < threshold → IsValid (new (some threshold) reset)
unfolding new
new-IsValid threshold reset h = ground arith

new-fields :
    (threshold : ℕ) (reset : Option ℕ)
    → ((new (some threshold) reset).consecutive_failures ≡ 0)
      × ((new (some threshold) reset).failure_threshold ≡ threshold)
unfolding new
new-fields threshold reset = (refl, refl)

-- A new breaker with a positive threshold is closed after some events exactly when the failures
-- since the last success are fewer than the threshold.
pub closed_iff :
    (threshold : ℕ) (reset : Option ℕ) (es : List Event)
    → 0 < threshold
    → ((run (new (some threshold) reset) es).state ≡ closed) ↔ (trailing 0 es < threshold)
closed_iff threshold reset es h =
    let b = new (some threshold) reset in
    let v = run-IsValid b es (new-IsValid threshold reset h) in
    let (count, same) = run-trailing b es in
    let (zero_count, its) = new-fields threshold reset in
    let count' : (run b es).consecutive_failures ≡ trailing 0 es =
      count ∙ ap (λ n. trailing n es) zero_count in
    (λ e. ground arith, λ below. closed_of v (omega arith))
  where
    closed_of :
        {c : CircuitBreaker}
        → IsValid c
        → c.consecutive_failures < c.failure_threshold
        → c.state ≡ closed
    closed_of v below = ground arith
