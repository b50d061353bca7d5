-- ===== src/Limits/Service/Checks.antt =====
-- Which amounts a check lets through (limits.service.ts, checkLimits).
use mux_backend.Prelude.{String, ◌≡◌, ◌↔◌, true, false, some, arith}
use mux_backend.Prelude.Http.{ok}
use mux_backend.Prelude.Table.{Table}
use mux_backend.Limits.Service.{
  Numbers, WalletLimit, DayAmounts, State, sum_from, daily_usage_total, check_limits,
}

module _ (N : Numbers) (T : Table String (WalletLimit N)) where
  -- Where the limit of one transaction is at least 0, the amount is not greater; and where the daily
  -- limit is greater than 0, it is not less than the sum of the day's transactions, of the day's
  -- payments, and of the amount.
  pub record IsWithin (l : WalletLimit N) (amounts : DayAmounts N) (amount : N.Number)
      : Type 0 where
    pub one :
        N.le N.nought l.per_transaction_limit ≡ true → N.lt l.per_transaction_limit amount ≡ false
    pub day :
        N.lt N.nought l.daily_limit ≡ true
        → N.lt l.daily_limit (
            N.add
              (N.add
                (sum_from N N.nought amounts.transactions)
                (sum_from N N.nought amounts.payments))
              amount)
          ≡ false

  -- For a wallet with a row of limits, the check passes exactly if the amount is within them, as
  -- JavaScript adds, in the order of the rows, and compares.
  pub check_limits-ok_iff :
      (s : State N T) (wallet : String) (l : WalletLimit N) (amounts : DayAmounts N)
      (amount : N.Number)
      → T.find s.rows wallet ≡ some l
      → ((check_limits N T wallet amount amounts s).1 ≡ ok tt) ↔ IsWithin l amounts amount
  unfolding check_limits daily_usage_total
  check_limits-ok_iff s wallet l amounts amount e =
      rw (e, check_limits)
        (λ h. record { one = λ p. ground arith; day = λ p. ground arith }, λ h. ground arith)
