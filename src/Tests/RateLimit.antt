-- ===== src/Tests/RateLimit.antt =====
-- Examples for the rate limits, with a table that is a function from its keys to their records.
use mux_backend.Prelude.{
  ℕ, suc, ◌≤◌, ◌<◌, max, String, ◌≡◌, true, false, Option, none, some, List, [], ◌∷◌, arith,
  if◌then◌else◌,
}
use mux_backend.Prelude.Table.{write, write_self, write_other}
use mux_backend.RateLimit.Service.{
  RateLimitRecord, RecordKey, RecordTable, RateLimitConfig, Faults, check_window,
}
use mux_backend.RateLimit.Service.Effects.{count, check_window-count}
use mux_backend.RateLimit.Service.Bound.{Check, Setup, admitted_count, admitted_count-le}
use mux_backend.Tests.Data.{string_discrete}
use native.Mathlib.Decide.{ℕ_discrete, dec_lt}
use mathlib.Core.Logic.{ite, if_pos, if_neg}

abbrev key_discrete : Discrete RecordKey
key_discrete = hlevel (string_discrete, ℕ_discrete)

abbrev IsOld : String → String → ℕ → RecordKey → Type 0
IsOld key endpoint w j = (j.0 ≡ key) × (j.1 ≡ endpoint) × (j.2 < w)

is_old : (key endpoint : String) (w : ℕ) (j : RecordKey) → Dec (IsOld key endpoint w j)
is_old key endpoint w j = elim (string_discrete j.0 key) [
  | no p ↦ no (λ h. p h.0)
  | yes p ↦ elim (string_discrete j.1 endpoint) [
    | no q ↦ no (λ h. q h.1)
    | yes q ↦ elim (dec_lt j.2 w) [ no r ↦ no (λ h. r h.2) | yes r ↦ yes (p, q, r) ]
  ]
]

abbrev table : RecordTable
table = record {
  Rows = RecordKey → Option RateLimitRecord;
  find = λ s k. s k;
  put = λ s k r. write key_discrete s k (some r);
  delete_before = λ s key endpoint w j. ite (is_old key endpoint w j) none (s j);
  find-put = λ s k r. write_self key_discrete s k (some r);
  find-put_ne = λ s k j r. write_other key_discrete s k j (some r);
  find-delete_before = λ s key endpoint w j h.
      if_neg (is_old key endpoint w j)
        (λ old. let late = h old.0 old.1 in let early = old.2 in omega arith) _ _;
  find-delete_before_old =
      λ s key endpoint w j p q r. if_pos (is_old key endpoint w j) (p, q, r) _ _;
}

abbrev empty : RecordKey → Option RateLimitRecord
empty k = none

abbrev config : RateLimitConfig
config = record { window_ms = 60000; max_requests = 2 }

abbrev no_faults : Faults
no_faults = record {
  find_throws = false;
  delete_throws = false;
  create_throws = false;
  update_throws = false;
}

check_window-count_example :
    let (rows', a) = check_window table config "k" "e" 61000 no_faults empty in
    (count table config "k" "e" 61000 rows' ≡ (
      if a.allowed
      then suc (count table config "k" "e" 61000 empty)
      else count table config "k" "e" 61000 empty))
    × (a.allowed ≡ true → count table config "k" "e" 61000 empty < max 1 2)
check_window-count_example = check_window-count table config "k" "e" 61000 no_faults empty

abbrev setup : Setup
setup = record { normal = config; sensitive = config; is_sensitive = λ e. false }

abbrev at_time : ℕ → Check
at_time now = record { key = "k"; endpoint = "e"; rpm = none; now = now; faults = no_faults }

abbrev checks : List Check
checks = at_time 61000 ∷ at_time 62000 ∷ at_time 63000 ∷ []

admitted_count-le_example :
    admitted_count table setup string_discrete ("k", "e", 60000) empty checks ≤ max 1 2
admitted_count-le_example =
    admitted_count-le table setup string_discrete ("k", "e", 60000) 2 0 empty checks
      ((
        omega arith,
        λ p q. omega arith,
        (omega arith, λ p q. omega arith, (omega arith, λ p q. omega arith, tt)),
      ))
