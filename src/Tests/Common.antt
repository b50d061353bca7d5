-- ===== src/Tests/Common.antt =====
-- Examples for the helpers of src/common.
use mux_backend.Prelude.{
  ℕ, ◌<◌, max, String, ◌≡◌, refl, ◌↔◌, Bool, true, none, some, List, [], ◌∷◌, arith, ltb,
  if◌then◌else◌,
}
use mux_backend.Common.CircuitBreaker.{CircuitBreaker, closed, open_circuit, half_open, new}
use mux_backend.Common.CircuitBreaker.Trips.{
  Event, fails, succeeds, asks, run, trailing, closed_iff,
}
use mux_backend.Common.CircuitBreaker.Trials.{ask_all, half_open_admits}
use mux_backend.Common.Retry.{
  Outcome, returns, throws, retry_with_backoff, execute, retry_with_options,
}
use mux_backend.Common.Retry.Attempts.{RunTries, retry-Tries}

abbrev history : List Event
history = fails 1 ∷ fails 2 ∷ succeeds ∷ asks 3 ∷ fails 4 ∷ []

closed_iff_example : ((run (new (some 2) none) history).state ≡ closed) ↔ (trailing 0 history < 2)
closed_iff_example = closed_iff 2 none history (omega arith)

abbrev tripped : CircuitBreaker
tripped = record {
  state = open_circuit;
  consecutive_failures = 2;
  opened_at = 100;
  failure_threshold = 2;
  reset_timeout_ms = 50;
}

half_open_admits_example :
    ask_all (record tripped { state = half_open }) (150 ∷ 151 ∷ []) ≡ true ∷ true ∷ []
half_open_admits_example =
    half_open_admits (record tripped { state = half_open }) (150 ∷ 151 ∷ []) refl

-- An operation that succeeds at its third attempt.
abbrev third : ℕ → Outcome String ℕ
third n = if ltb n 3 then throws 503 else returns "done"

abbrev always : ℕ → Bool
always e = true

retry-Tries_example :
    (0 < 4 → RunTries third always 4 1 (retry_with_backoff third always 4 10))
    × RunTries third always (max 1 4) 1 (execute third always 4 10 15)
    × RunTries third always (max 1 4) 1 (retry_with_options third always 4 10 15 2)
retry-Tries_example = retry-Tries third always 4 10 15 2
