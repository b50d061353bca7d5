-- ===== src/Common/CircuitBreaker/Trials.antt =====
-- What an open circuit refuses, and what it lets through once it has cooled down
-- (circuit-breaker.ts).
use mux_backend.Prelude.{
  ℕ, ◌+◌, ◌≤◌, ◌<◌, ◌≡◌, refl, ap, ◌∙◌, Bool, true, false, List, [], ◌∷◌, map, arith,
}
use mux_backend.Common.CircuitBreaker.{
  closed, open_circuit, half_open, CircuitBreaker, assert_closed, record_success, record_failure,
}

-- The answers to calls that are asked for one after the other, before the outcome of any is known.
pub ask_all : CircuitBreaker → List ℕ → List Bool
ask_all b [] = []
ask_all b (now ∷ times) = let (b', ok) = assert_closed now b in ok ∷ ask_all b' times

abbrev pub Every : (ℕ → Type 0) → List ℕ → Type 0
Every P [] = Unit {0}
Every P (t ∷ ts) = P t × Every P ts

asked :
    (b : CircuitBreaker) (now : ℕ) (times : List ℕ)
    → ask_all b (now ∷ times) ≡ (assert_closed now b).1 ∷ ask_all (assert_closed now b).0 times
unfolding ask_all
asked b now times = refl

assert_open :
    (b : CircuitBreaker) (now : ℕ)
    → b.state ≡ open_circuit
    → now < b.opened_at + b.reset_timeout_ms
    → assert_closed now b ≡ (b, false)
unfolding assert_closed
assert_open b now e h = ground arith

-- Until the cooldown is over an open circuit refuses every call.
open_refuses :
    (b : CircuitBreaker) (times : List ℕ)
    → b.state ≡ open_circuit
    → Every (λ t. t < b.opened_at + b.reset_timeout_ms) times
    → ask_all b times ≡ map (λ t. false) times
unfolding ask_all
open_refuses b [] e h = refl
open_refuses b (t ∷ ts) e h =
    asked b t ts ∙ rw (assert_open b t e h.0) (ap (λ r. false ∷ r) (open_refuses b ts e h.1))

assert_half_open :
    (b : CircuitBreaker) (now : ℕ) → b.state ≡ half_open → assert_closed now b ≡ (b, true)
unfolding assert_closed
assert_half_open b now e = ground arith

-- After a trial call has been let through, every further call is let through as well for as long as
-- no outcome is reported.
pub half_open_admits :
    (b : CircuitBreaker) (times : List ℕ)
    → b.state ≡ half_open
    → ask_all b times ≡ map (λ t. true) times
unfolding ask_all
half_open_admits b [] e = refl
half_open_admits b (t ∷ ts) e =
    asked b t ts ∙ rw (assert_half_open b t e) (ap (λ r. true ∷ r) (half_open_admits b ts e))

-- The first call after the cooldown is let through; its failure opens the circuit again for a whole
-- cooldown from then on, its success closes it with no failures counted.
trial_decides :
    (b : CircuitBreaker) (now later : ℕ)
    → b.state ≡ open_circuit
    → b.opened_at + b.reset_timeout_ms ≤ now
    → let (b', admitted) = assert_closed now b in
      (admitted ≡ true)
      × ((record_failure later b').state ≡ open_circuit)
      × ((record_failure later b').opened_at ≡ later)
      × ((record_success b').state ≡ closed)
      × ((record_success b').consecutive_failures ≡ 0)
unfolding assert_closed record_failure record_success
trial_decides b now later e h = ground arith
