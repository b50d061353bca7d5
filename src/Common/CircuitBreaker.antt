-- ===== src/Common/CircuitBreaker.antt =====
-- src/common/utils/circuit-breaker.ts. `Date.now()` is an argument, in milliseconds.
pub mod Trips
pub mod Trials
use mux_backend.Prelude.{
  ℕ, ◌+◌, Bool, true, false, not, ◌&&◌, ◌||◌, Option, none, some, leb, if◌then◌else◌,
}

pub data CircuitState : Type 0 where
  closed open_circuit half_open : CircuitState

pub record CircuitBreaker : Type 0 where
  pub state : CircuitState
  pub consecutive_failures : ℕ
  pub opened_at : ℕ
  pub failure_threshold : ℕ
  pub reset_timeout_ms : ℕ

abbrev or_default : Option ℕ → ℕ → ℕ
or_default none d = d
or_default (some n) d = n

-- The constructor, with its defaults.
unfoldable pub new : Option ℕ → Option ℕ → CircuitBreaker
new failure_threshold reset_timeout_ms = record {
  state = closed;
  consecutive_failures = 0;
  opened_at = 0;
  failure_threshold = or_default failure_threshold 5;
  reset_timeout_ms = or_default reset_timeout_ms 30000;
}

abbrev pub is_open : CircuitState → Bool
is_open open_circuit = true
is_open _ = false

abbrev pub is_half_open : CircuitState → Bool
is_half_open half_open = true
is_half_open _ = false

-- now - openedAt >= resetTimeoutMs
abbrev pub cooled_down : CircuitBreaker → ℕ → Bool
cooled_down b now = leb (b.opened_at + b.reset_timeout_ms) now

unfoldable pub get_state : ℕ → CircuitBreaker → CircuitBreaker × CircuitState
get_state now b =
    if is_open b.state && cooled_down b now
    then (record b { state = half_open }, half_open)
    else (b, b.state)

-- `false` is CircuitOpenError.
unfoldable pub assert_closed : ℕ → CircuitBreaker → CircuitBreaker × Bool
unfolding get_state
assert_closed now b = let (b', s) = get_state now b in (b', not (is_open s))

unfoldable pub record_success : CircuitBreaker → CircuitBreaker
record_success b = record b { consecutive_failures = 0; state = closed }

unfoldable pub record_failure : ℕ → CircuitBreaker → CircuitBreaker
record_failure now b =
    let c : CircuitBreaker = record b { consecutive_failures = b.consecutive_failures + 1 } in
    if is_half_open c.state || leb c.failure_threshold c.consecutive_failures
    then record c { state = open_circuit; opened_at = now }
    else c
