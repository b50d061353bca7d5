-- ===== src/Tests/Transactions/Polling.antt =====
-- Examples for the polling of Horizon.
use mux_backend.Prelude.{◌+◌, String, ◌≡◌, refl, some}
use mux_backend.Transactions.Model.{failed}
use mux_backend.Transactions.Service.{TransactionRow}
use mux_backend.Transactions.Polling.{Reply, error_status, no_transactions, poll_one}
use mux_backend.Transactions.Polling.NotFound.{poll_not_found}
use mux_backend.Tests.Data.{string_discrete}
use mux_backend.Tests.Transactions.Data.{table, row, filled}

-- Horizon knows no transaction.
abbrev nothing_known : String → Reply
nothing_known hash = error_status 404

poll_not_found_example :
    let (s', m) = poll_one table string_discrete nothing_known 9 row filled no_transactions in
    ((u : TransactionRow) × (table.find s'.rows "t1" ≡ some u) × (u.status ≡ failed))
    × (m.failed_count ≡ 0 + 1)
poll_not_found_example =
    poll_not_found table string_discrete nothing_known 9 row "h1" filled no_transactions refl refl
      refl refl
