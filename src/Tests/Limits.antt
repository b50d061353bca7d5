-- ===== src/Tests/Limits.antt =====
-- Examples for the limits of a wallet, with amounts that are natural numbers.
use mux_backend.Prelude.{
  ℕ, ◌+◌, ◌-◌, ◌*◌, ◌/◌, max, String, ◌≡◌, refl, ◌↔◌, none, some, [], ◌∷◌, ltb, leb, ◌==◌,
}
use mux_backend.Prelude.Http.{ok}
use mux_backend.Prelude.Table.{Table, function_table}
use mux_backend.Limits.Service.{
  Numbers, WalletLimit, DayAmounts, State, check_limits, remove_limits,
}
use mux_backend.Limits.Service.Checks.{IsWithin, check_limits-ok_iff}
use mux_backend.Limits.Service.Removal.{remove_limits_still_enforced}
use mux_backend.Tests.Data.{string_discrete}

abbrev numbers : Numbers
numbers = record {
  Number = ℕ;
  nought = 0;
  lt = ltb;
  le = leb;
  eq = λ a b. a == b;
  add = λ a b. a + b;
  sub = λ a b. a - b;
  max = max;
  warning_part = λ a. a * 4 / 5;
}

abbrev limits : WalletLimit numbers
limits = record {
  wallet_id = "w1";
  daily_limit = 100;
  per_transaction_limit = 60;
  deleted_at = none;
}

abbrev table : Table String (WalletLimit numbers)
table = function_table string_discrete

abbrev state : State numbers table
state = record {
  rows = λ k. some limits;
  events = [];
  metrics = record { checks_allowed = 0; checks_denied = 0; exceeded_daily = 0 };
}

abbrev day : DayAmounts numbers
day = record { transactions = 30 ∷ []; payments = 10 ∷ [] }

check_limits-ok_iff_example :
    ((check_limits numbers table "w1" 50 day state).1 ≡ ok tt)
    ↔ IsWithin numbers table limits day 50
check_limits-ok_iff_example = check_limits-ok_iff numbers table state "w1" limits day 50 refl

remove_limits_still_enforced_example :
    let (s', removed) = remove_limits numbers table "w1" day 9 state in
    (removed ≡ ok (record limits { deleted_at = some 9 }))
    × ((check_limits numbers table "w1" 70 day s').1
        ≡ (check_limits numbers table "w1" 70 day state).1)
remove_limits_still_enforced_example =
    remove_limits_still_enforced numbers table state "w1" limits day 9 70 day refl
