-- ===== src/RateLimit/Service/Effects.antt =====
-- What one check does to the table and answers (rate-limit.service.ts, checkRateLimit).
use mux_backend.Prelude.{
  ℕ, suc, ◌+◌, ◌<◌, max, String, ◌≡◌, refl, ap, inl, inr, true, false, Option, none, some, arith,
  leb, if◌then◌else◌, Bool-cases, Option-cases,
}
use native.Mathlib.Nat.{le_refl}
use mux_backend.RateLimit.Service.{
  RateLimitRecord, RecordKey, RecordTable, RateLimitConfig, RateLimitResult, Faults,
  window_start_at, fail_closed, denied, admitted, check_window,
}

abbrev pub counted_of : Option RateLimitRecord → ℕ
counted_of none = 0
counted_of (some r) = r.request_count

module _ (T : RecordTable) (c : RateLimitConfig) (key endpoint : String) (now : ℕ) where
  abbrev pub current : RecordKey
  current = (key, endpoint, window_start_at c.window_ms now)

  abbrev pub clean : T.Rows → T.Rows
  clean rows = T.delete_before rows key endpoint (window_start_at c.window_ms now)

  abbrev pub first_record : RateLimitRecord
  first_record = record { window_start = window_start_at c.window_ms now; request_count = 1 }

  abbrev pub next_record : RateLimitRecord → RateLimitRecord
  next_record r = record r { request_count = r.request_count + 1 }

  -- The ways in which a check can end, with the table that it leaves.
  pub data Effect (rows : T.Rows) : T.Rows × RateLimitResult → Type 0 where
    unchanged : (a : RateLimitResult) → a.allowed ≡ false → Effect rows (rows, a)
    cleaned :
        (a : RateLimitResult)
        → a.allowed ≡ false
        → T.find rows current ≡ none
        → Effect rows (clean rows, a)
    first :
        T.find rows current ≡ none
        → Effect rows (T.put (clean rows) current first_record, admitted c first_record)
    next :
        (r : RateLimitRecord)
        → T.find rows current ≡ some r
        → r.request_count < c.max_requests
        → Effect rows (T.put rows current (next_record r), admitted c (next_record r))

  pub check_window-Effect :
      (faults : Faults) (rows : T.Rows)
      → Effect rows (check_window T c key endpoint now faults rows)
  unfolding check_window
  check_window-Effect faults rows = elim (Bool-cases faults.find_throws) [
    | inl down ↦ rw down (unchanged (fail_closed c now) refl)
    | inr up ↦ elim (Option-cases (T.find rows current)) [
      | inl new ↦ elim (Bool-cases faults.delete_throws) [
        | inl broken ↦ rw (up, new, broken) (unchanged (fail_closed c now) refl)
        | inr fine ↦ elim (Bool-cases faults.create_throws) [
          | inl broken ↦ rw (up, new, fine, broken) (cleaned (fail_closed c now) refl new)
          | inr good ↦ rw (up, new, fine, good) (first new)
        ]
      ]
      | inr (r, old) ↦ elim (Bool-cases (leb c.max_requests r.request_count)) [
        | inl full ↦ rw (up, old, full) (unchanged (denied c r) refl)
        | inr room ↦ elim (Bool-cases faults.update_throws) [
          | inl broken ↦ rw (up, old, room, broken) (unchanged (fail_closed c now) refl)
          | inr good ↦ rw (up, old, room, good) (next r old (ground arith))
        ]
      ]
    ]
  ]

  -- The number that the record of the current window counts.
  abbrev pub count : T.Rows → ℕ
  count rows = counted_of (T.find rows current)

  count_of_find :
      (rows rows' : T.Rows) → T.find rows' current ≡ T.find rows current → count rows' ≡ count rows
  count_of_find rows rows' e = ap counted_of e

  Effect-count :
      (rows : T.Rows) (out : T.Rows × RateLimitResult)
      → Effect rows out
      → (count out.0 ≡ (if out.1.allowed then suc (count rows) else count rows))
        × (out.1.allowed ≡ true → count rows < max 1 c.max_requests)
  Effect-count rows _ (unchanged a e) = rw e (refl, λ f. cc)
  Effect-count rows _ (cleaned a e new) = rw e (
    count_of_find rows (clean rows)
        (T.find-delete_before rows key endpoint _ current (λ _ _. le_refl _)),
    λ f. cc,
  )
  Effect-count rows _ (first new) =
      let after : count (T.put (clean rows) current first_record) ≡ 1 =
        ap counted_of (T.find-put (clean rows) current first_record) in
      let before : count rows ≡ 0 = ap counted_of new in (omega arith, λ _. omega arith)
  Effect-count rows _ (next r old room) =
      let after : count (T.put rows current (next_record r)) ≡ r.request_count + 1 =
        ap counted_of (T.find-put rows current (next_record r)) in
      let before : count rows ≡ r.request_count = ap counted_of old in
      (omega arith, λ _. omega arith)

  -- Whatever calls of the database throw, a request is counted exactly when it is admitted, and it
  -- is admitted only below the limit, or as the first of its window.
  pub check_window-count :
      (faults : Faults) (rows : T.Rows)
      → let (rows', a) = check_window T c key endpoint now faults rows in
        (count rows' ≡ (if a.allowed then suc (count rows) else count rows))
        × (a.allowed ≡ true → count rows < max 1 c.max_requests)
  check_window-count faults rows = Effect-count rows _ (check_window-Effect faults rows)
