-- ===== src/RateLimit/Service/Counting.antt =====
-- The record of a window counts the requests that the window has admitted (rate-limit.service.ts).
use mux_backend.Prelude.{
  ℕ, suc, ◌≤◌, ◌<◌, max, String, ◌≡◌, refl, sym, ◌∙◌, ◌≢◌, Bool, none, some, arith, if◌then◌else◌,
}
use native.Mathlib.Decide.{dec_lt}
use native.Mathlib.Nat.{le_refl, le_trans}
use mux_backend.RateLimit.Service.{
  RateLimitRecord, RecordKey, RecordTable, RateLimitConfig, RateLimitResult, window_start_at,
}
use mux_backend.RateLimit.Service.Effects.{Effect, unchanged, cleaned, first, next, clean, current}

pub window_start_at_mono : (w a b : ℕ) → a ≤ b → window_start_at w a ≤ window_start_at w b
window_start_at_mono w a b h = grind arith

-- n requests have been admitted into the window up to the time `last`: the record of the window
-- counts at least as many, and where the window has no record but may still get one, none has been.
pub record Counted (T : RecordTable) (window : RecordKey) (window_ms limit last n : ℕ)
    (rows : T.Rows) : Type 0 where
  pub bounded : n ≤ max 1 limit
  pub counted : (r : RateLimitRecord) → T.find rows window ≡ some r → n ≤ r.request_count
  pub unopened : window_start_at window_ms last ≤ window.2 → T.find rows window ≡ none → n ≡ 0

abbrev pub add : Bool → ℕ → ℕ
add allowed n = if allowed then suc n else n

-- The record of the window is as it was.
Counted-keep :
    (T : RecordTable) (window : RecordKey) (window_ms limit last now n : ℕ) (rows rows' : T.Rows)
    → last ≤ now
    → T.find rows' window ≡ T.find rows window
    → Counted T window window_ms limit last n rows
    → Counted T window window_ms limit now n rows'
Counted-keep T window window_ms limit last now n rows rows' later e h = record {
  bounded = h.bounded;
  counted = λ r f. h.counted r (sym e ∙ f);
  unopened =
      λ p f. h.unopened (le_trans (window_start_at_mono window_ms last now later) p) (sym e ∙ f);
}

-- The window is over, and its record is gone.
Counted-over :
    (T : RecordTable) (window : RecordKey) (window_ms limit last now n : ℕ) (rows rows' : T.Rows)
    → window.2 < window_start_at window_ms now
    → T.find rows' window ≡ none
    → Counted T window window_ms limit last n rows
    → Counted T window window_ms limit now n rows'
Counted-over T window window_ms limit last now n rows rows' over gone h = record {
  bounded = h.bounded;
  counted = λ r f. cc;
  unopened = λ p f. absurd (omega arith);
}

-- One more request is admitted, and the record of the window is r.
Counted-admit :
    (T : RecordTable) (window : RecordKey) (window_ms limit last now n : ℕ) (rows : T.Rows)
    (r : RateLimitRecord)
    → suc n ≤ max 1 limit
    → suc n ≤ r.request_count
    → Counted T window window_ms limit now (suc n) (T.put rows window r)
Counted-admit T window window_ms limit last now n rows r small room = record {
  bounded = small;
  counted = λ x f. ground (arith, T.find-put rows window r);
  unopened = λ p f. cc (T.find-put rows window r);
}

module _ (T : RecordTable) (c : RateLimitConfig) (key endpoint : String) (now : ℕ) where
  abbrev window : RecordKey
  window = current T c key endpoint now

  pub Effect-Counted_in :
      (limit last n : ℕ) (rows : T.Rows) (out : T.Rows × RateLimitResult)
      → last ≤ now
      → c.max_requests ≤ limit
      → Counted T window c.window_ms limit last n rows
      → Effect T c key endpoint now rows out
      → Counted T window c.window_ms limit now (add out.1.allowed n) out.0
  Effect-Counted_in limit last n rows _ later small h (unchanged a e) =
      rw e (Counted-keep T window c.window_ms limit last now n rows rows later refl h)
  Effect-Counted_in limit last n rows _ later small h (cleaned a e new) = rw e (
      Counted-keep T window c.window_ms limit last now n rows _ later
        (T.find-delete_before rows key endpoint _ window (λ _ _. le_refl _)) h)
  Effect-Counted_in limit last n rows _ later small h (first new) =
      let none_yet = h.unopened (window_start_at_mono c.window_ms last now later) new in
      Counted-admit T window c.window_ms limit last now n _ _ (omega arith) (omega arith)
  Effect-Counted_in limit last n rows _ later small h (next r old room) =
      let below = h.counted r old in
      Counted-admit T window c.window_ms limit last now n _ _ (omega arith) (omega arith)

  -- Cleaning leaves the other windows alone, but for those of the same key that are over.
  clean-Counted :
      (other : RecordKey) (window_ms limit last n : ℕ) (rows : T.Rows)
      → Discrete String
      → last ≤ now
      → (other.1 ≡ endpoint → window_ms ≡ c.window_ms)
      → Counted T other window_ms limit last n rows
      → Counted T other window_ms limit now n (clean T c key endpoint now rows)
  clean-Counted other window_ms limit last n rows same later w h =
      let keep =
        Counted-keep T other window_ms limit last now n rows (clean T c key endpoint now rows)
          later in
      let law = T.find-delete_before rows key endpoint (window_start_at c.window_ms now) other in
      elim (same other.0 key) [
        | no k ↦ keep (law (λ e. absurd (k e))) h
        | yes k ↦ elim (same other.1 endpoint) [
          | no p ↦ keep (law (λ _ e. absurd (p e))) h
          | yes p ↦ elim (dec_lt other.2 (window_start_at c.window_ms now)) [
            | no young ↦ keep (law (λ _ _. omega arith)) h
            | yes old ↦
                Counted-over T other window_ms limit last now n rows _ (rw (w p) old)
                  (T.find-delete_before_old rows key endpoint _ other k p old) h
          ]
        ]
      ]

  pub Effect-Counted_out :
      (other : RecordKey) (window_ms limit last n : ℕ) (rows : T.Rows)
      (out : T.Rows × RateLimitResult)
      → Discrete String
      → last ≤ now
      → other ≢ window
      → (other.1 ≡ endpoint → window_ms ≡ c.window_ms)
      → Counted T other window_ms limit last n rows
      → Effect T c key endpoint now rows out
      → Counted T other window_ms limit now n out.0
  Effect-Counted_out other window_ms limit last n rows _ same later ne w h (unchanged a e) =
      Counted-keep T other window_ms limit last now n rows rows later refl h
  Effect-Counted_out other window_ms limit last n rows _ same later ne w h (cleaned a e new) =
      clean-Counted other window_ms limit last n rows same later w h
  Effect-Counted_out other window_ms limit last n rows _ same later ne w h (first new) =
      Counted-keep T other window_ms limit now now n _ _ (le_refl now)
        (T.find-put_ne _ window other _ ne)
        (clean-Counted other window_ms limit last n rows same later w h)
  Effect-Counted_out other window_ms limit last n rows _ same later ne w h (next r old room) =
      Counted-keep T other window_ms limit last now n rows _ later
        (T.find-put_ne rows window other _ ne) h
