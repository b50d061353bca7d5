-- ===== src/RateLimit/Service.antt =====
-- src/rate-limit/rate-limit.service.ts, and src/auth/auth-rate-limit.service.ts, which is the same
-- algorithm with an address in place of the API key. Times are milliseconds. The table is the
-- database's; which of its calls throw is an argument, and a call that throws has written nothing.
pub mod Effects
pub mod Counting
pub mod Bound
use mux_backend.Prelude.{
  ℕ, ◌+◌, ◌-◌, ◌*◌, ◌/◌, ◌≤◌, ◌<◌, String, ◌≡◌, ◌≢◌, Bool, true, false, Option, none, some, leb,
  if◌then◌else◌,
}
use mux_backend.Prelude.Int.{ℤ, pos, negsuc, sub_ℕ}

pub record RateLimitRecord : Type 0 where
  pub window_start : ℕ
  pub request_count : ℕ

-- The unique key of the table: API key, endpoint and start of the window.
abbrev pub RecordKey : Type 0
RecordKey = String × String × ℕ

-- `find` is findUnique, `put` is create or update, and `delete_before` deletes the records of an API
-- key and endpoint whose window starts before the given one. The laws are what Prisma documents.
pub record RecordTable : Type 1 where
  pub Rows : Type 0
  pub find : Rows → RecordKey → Option RateLimitRecord
  pub put : Rows → RecordKey → RateLimitRecord → Rows
  pub delete_before : Rows → String → String → ℕ → Rows
  pub find-put : (s : Rows) (k : RecordKey) (r : RateLimitRecord) → find (put s k r) k ≡ some r
  pub find-put_ne :
      (s : Rows) (k j : RecordKey) (r : RateLimitRecord) → j ≢ k → find (put s k r) j ≡ find s j
  pub find-delete_before :
      (s : Rows) (key endpoint : String) (w : ℕ) (j : RecordKey)
      → (j.0 ≡ key → j.1 ≡ endpoint → w ≤ j.2)
      → find (delete_before s key endpoint w) j ≡ find s j
  pub find-delete_before_old :
      (s : Rows) (key endpoint : String) (w : ℕ) (j : RecordKey)
      → j.0 ≡ key
      → j.1 ≡ endpoint
      → j.2 < w
      → find (delete_before s key endpoint w) j ≡ none

pub record RateLimitConfig : Type 0 where
  pub window_ms : ℕ
  pub max_requests : ℕ

pub record RateLimitResult : Type 0 where
  pub allowed : Bool
  pub remaining : ℤ
  pub reset_time : ℕ
  pub limit : ℕ

-- Which calls of the database throw.
pub record Faults : Type 0 where
  pub find_throws : Bool
  pub delete_throws : Bool
  pub create_throws : Bool
  pub update_throws : Bool

-- Math.floor(now / windowMs) * windowMs
abbrev pub window_start_at : ℕ → ℕ → ℕ
window_start_at window_ms now = now / window_ms * window_ms

-- The `catch`: when the database cannot be asked, the request is denied.
abbrev pub fail_closed : RateLimitConfig → ℕ → RateLimitResult
fail_closed c now = record {
  allowed = false;
  remaining = pos 0;
  reset_time = now + c.window_ms;
  limit = c.max_requests;
}

abbrev pub denied : RateLimitConfig → RateLimitRecord → RateLimitResult
denied c r = record {
  allowed = false;
  remaining = pos 0;
  reset_time = r.window_start + c.window_ms;
  limit = c.max_requests;
}

abbrev pub admitted : RateLimitConfig → RateLimitRecord → RateLimitResult
admitted c r = record {
  allowed = true;
  remaining = sub_ℕ c.max_requests r.request_count;
  reset_time = r.window_start + c.window_ms;
  limit = c.max_requests;
}

-- `projectRateLimitRpm ?? …`
abbrev pub effective : RateLimitConfig → RateLimitConfig → Option ℕ → Bool → RateLimitConfig
effective normal sensitive rpm is_sensitive =
    let c = if is_sensitive then sensitive else normal in
    record c { max_requests = elim rpm [ none ↦ c.max_requests | some n ↦ n ] }

module _ (T : RecordTable) where
  -- The `try` block, at the window and the limit that apply.
  unfoldable pub check_window :
      RateLimitConfig → String → String → ℕ → Faults → T.Rows → T.Rows × RateLimitResult
  check_window c key endpoint now faults rows =
      let start = window_start_at c.window_ms now in
      if faults.find_throws
      then (rows, fail_closed c now)
      else elim (T.find rows (key, endpoint, start)) [
        | none ↦
            if faults.delete_throws
            then (rows, fail_closed c now)
            else (let cleaned = T.delete_before rows key endpoint start in
                let first : RateLimitRecord = record { window_start = start; request_count = 1 } in
                if faults.create_throws
                then (cleaned, fail_closed c now)
                else (T.put cleaned (key, endpoint, start) first, admitted c first))
        | some r ↦
            if leb c.max_requests r.request_count
            then (rows, denied c r)
            else (let next : RateLimitRecord = record r { request_count = r.request_count + 1 } in
                if faults.update_throws
                then (rows, fail_closed c now)
                else (T.put rows (key, endpoint, start) next, admitted c next))
      ]

  unfoldable pub check_rate_limit :
      RateLimitConfig
      → RateLimitConfig
      → String
      → String
      → Option ℕ
      → Bool
      → ℕ
      → Faults
      → T.Rows
      → T.Rows × RateLimitResult
  unfolding check_window
  check_rate_limit normal sensitive key endpoint rpm is_sensitive now faults rows =
      check_window (effective normal sensitive rpm is_sensitive) key endpoint now faults rows

  -- auth-rate-limit.service.ts: the key is `auth-rate-limit:${ipAddress}`, which the caller builds.
  unfoldable pub auth_check_rate_limit :
      RateLimitConfig → String → ℕ → Faults → T.Rows → T.Rows × RateLimitResult
  unfolding check_window
  auth_check_rate_limit c key now faults rows =
      check_window c key "POST /auth/authenticate" now faults rows
