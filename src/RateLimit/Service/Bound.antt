-- ===== src/RateLimit/Service/Bound.antt =====
-- How many requests a window admits (rate-limit.service.ts, checkRateLimit), over any sequence of
-- checks that run one after the other.
use mux_backend.Prelude.{
  ℕ, ◌+◌, ◌≤◌, max, String, ◌≡◌, refl, sym, ap, subst, ◌≢◌, Bool, Option, List, [], ◌∷◌, arith,
  if◌then◌else◌,
}
use mux_backend.RateLimit.Service.{
  RecordKey, RecordTable, RateLimitConfig, RateLimitResult, Faults, window_start_at, effective,
  check_rate_limit,
}
use mux_backend.RateLimit.Service.Effects.{Effect, check_window-Effect}
use mux_backend.RateLimit.Service.Counting.{Counted, add, Effect-Counted_in, Effect-Counted_out}
use mathlib.Core.Logic.{ite, if_pos, if_neg}
use native.Mathlib.Decide.{ℕ_discrete}

add-le : (b : Bool) (n m k : ℕ) → add b n + m ≤ k → n + add b m ≤ k
add-le b n m k h = ground arith

-- A request that is checked.
pub record Check : Type 0 where
  pub key : String
  pub endpoint : String
  pub rpm : Option ℕ
  pub now : ℕ
  pub faults : Faults

-- The two configurations, and which endpoints are sensitive.
pub record Setup : Type 0 where
  pub normal : RateLimitConfig
  pub sensitive : RateLimitConfig
  pub is_sensitive : String → Bool

abbrev pub window_of : Setup → String → ℕ
window_of u endpoint = (if u.is_sensitive endpoint then u.sensitive else u.normal).window_ms

abbrev pub limit_of : Setup → Check → ℕ
limit_of u q = (effective u.normal u.sensitive q.rpm (u.is_sensitive q.endpoint)).max_requests

abbrev pub config_of : Setup → Check → RateLimitConfig
config_of u q = effective u.normal u.sensitive q.rpm (u.is_sensitive q.endpoint)

-- The window into which a check falls.
abbrev pub key_of : Setup → Check → RecordKey
key_of u q = (q.key, q.endpoint, window_start_at (window_of u q.endpoint) q.now)

unfoldable pub answer : (T : RecordTable) → Setup → Check → T.Rows → T.Rows × RateLimitResult
unfolding check_rate_limit
answer T u q rows =
    check_rate_limit T u.normal u.sensitive q.key q.endpoint q.rpm (u.is_sensitive q.endpoint) q.now
      q.faults rows

-- The times do not go back, and the requests for the key and the endpoint of the window have at
-- most the given limit.
abbrev pub Admissible : Setup → RecordKey → ℕ → ℕ → List Check → Type 0
Admissible u window limit last [] = Unit {0}
Admissible u window limit last (q ∷ qs) =
    (last ≤ q.now)
    × (q.key ≡ window.0 → q.endpoint ≡ window.1 → limit_of u q ≤ limit)
    × Admissible u window limit q.now qs

module _ (T : RecordTable) (u : Setup) (same : Discrete String) where
  RecordKey-discrete : Discrete RecordKey
  RecordKey-discrete = hlevel (same, ℕ_discrete)

  -- How many of the checks are admitted into the window.
  pub admitted_count : RecordKey → T.Rows → List Check → ℕ
  admitted_count window rows [] = 0
  admitted_count window rows (q ∷ qs) =
      let rest = admitted_count window (answer T u q rows).0 qs in
      ite (RecordKey-discrete (key_of u q) window) (add (answer T u q rows).1.allowed rest) rest

  answer-Effect :
      (q : Check) (rows : T.Rows)
      → Effect T (config_of u q) q.key q.endpoint q.now rows (answer T u q rows)
  unfolding answer check_rate_limit
  answer-Effect q rows = check_window-Effect T (config_of u q) q.key q.endpoint q.now q.faults rows

  answer-Counted_in :
      (window : RecordKey) (limit last n : ℕ) (rows : T.Rows) (q : Check)
      → key_of u q ≡ window
      → last ≤ q.now
      → limit_of u q ≤ limit
      → Counted T window (window_of u window.1) limit last n rows
      → Counted T window
          (window_of u window.1)
          limit
          q.now
          (add (answer T u q rows).1.allowed n)
          (answer T u q rows).0
  answer-Counted_in window limit last n rows q e later small =
      subst
        (λ w.
          Counted T w (window_of u w.1) limit last n rows
          → Counted T w (window_of u w.1) limit q.now (add (answer T u q rows).1.allowed n)
              (answer T u q rows).0)
        e
        (λ h.
          Effect-Counted_in T (config_of u q) q.key q.endpoint q.now limit last n rows _ later small
            h (answer-Effect q rows))

  answer-Counted_out :
      (window : RecordKey) (limit last n : ℕ) (rows : T.Rows) (q : Check)
      → key_of u q ≢ window
      → last ≤ q.now
      → Counted T window (window_of u window.1) limit last n rows
      → Counted T window (window_of u window.1) limit q.now n (answer T u q rows).0
  answer-Counted_out window limit last n rows q other later h =
      Effect-Counted_out T (config_of u q) q.key q.endpoint q.now window (window_of u window.1)
        limit last n rows _ same later (λ e. other (sym e)) (λ e. ap (window_of u) e) h
        (answer-Effect q rows)

  -- `n` admissions so far and those of the remaining checks stay within the limit.
  admitted_count-le_from :
      (window : RecordKey) (limit last n : ℕ) (rows : T.Rows) (qs : List Check)
      → Admissible u window limit last qs
      → Counted T window (window_of u window.1) limit last n rows
      → n + admitted_count window rows qs ≤ max 1 limit
  unfolding admitted_count
  admitted_count-le_from window limit last n rows [] a h = let b = h.bounded in omega arith
  admitted_count-le_from window limit last n rows (q ∷ qs) a h =
      elim (RecordKey-discrete (key_of u q) window) [
        | no other ↦ rw (if_neg _ other) (
            admitted_count-le_from window limit q.now n _ qs a.2
              (answer-Counted_out window limit last n rows q other a.0 h))
        | yes e ↦
            let small = a.1 (ap (λ k. k.0) e) (ap (λ k. k.1) e) in
            let h' = answer-Counted_in window limit last n rows q e a.0 small h in
            let ih = admitted_count-le_from window limit q.now _ _ qs a.2 h' in
            rw (if_pos _ e) (add-le (answer T u q rows).1.allowed n _ _ ih)
      ]

  -- Over any sequence of checks, of any keys, endpoints and database faults, whose times do not go
  -- back, and from any table, a window of an API key at an endpoint admits at most as many requests
  -- as the largest limit that they are checked against, or one if that limit is 0.
  pub admitted_count-le :
      (window : RecordKey) (limit last : ℕ) (rows : T.Rows) (qs : List Check)
      → Admissible u window limit last qs
      → admitted_count window rows qs ≤ max 1 limit
  admitted_count-le window limit last rows qs a =
      let h =
        admitted_count-le_from window limit last 0 rows qs a (record {
          bounded = omega arith;
          counted = λ r f. omega arith;
          unopened = λ p f. refl;
        }) in
      omega arith
