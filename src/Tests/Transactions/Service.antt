-- ===== src/Tests/Transactions/Service.antt =====
-- Examples for the transaction service.
use mux_backend.Prelude.{◌≡◌, refl, true, none, some, List, [], ◌∷◌}
use mux_backend.Prelude.Http.{ok}
use mux_backend.Transactions.Model.{
  confirmed, can_transition_transaction_status, transition_transaction_status,
}
use mux_backend.Common.Cache.{map_get}
use mux_backend.Common.Memo.{validate_memo}
use mux_backend.Transactions.Service.{
  TransactionRow, UpdateTransactionStatusDto, State, updated_row, create, insert_checked,
  receiver_exists, is_covered,
}
use mux_backend.Transactions.Service.Updates.{to_model, references, updated_row-transition}
use mux_backend.Transactions.Service.Coherence.{IsCoherent}
use mux_backend.Transactions.Service.Requests.{
  Request, reads, updates, run, AllFresh, run-IsCoherent,
}
use mux_backend.Transactions.Service.Replay.{create_once}
use mux_backend.Tests.Data.{string_discrete}
use mux_backend.Tests.Transactions.Data.{table, row, empty, filled, rich, dto}

abbrev confirming : UpdateTransactionStatusDto
confirming = record {
  status = confirmed;
  status_reason = none;
  stellar_hash = none;
  stellar_ledger = some 77;
  stellar_fee = none;
}

updated_row-transition_example :
    transition_transaction_status (to_model row) confirmed none (some (references confirming)) 9
    ≡ ok (to_model (updated_row row confirming 9))
unfolding can_transition_transaction_status
updated_row-transition_example = updated_row-transition row confirming 9 refl

filled-IsCoherent : IsCoherent table string_discrete filled
unfolding map_get
filled-IsCoherent id e p = cc

abbrev requests : List Request
requests = reads "t1" 9 ∷ updates "t1" confirming 10 ∷ reads "t1" 11 ∷ []

run-IsCoherent_example :
    IsCoherent table string_discrete (run table string_discrete filled requests)
unfolding AllFresh
run-IsCoherent_example =
    run-IsCoherent table string_discrete filled requests (tt, (tt, (tt, tt))) filled-IsCoherent

abbrev later : State table string_discrete
later = run table string_discrete (create table string_discrete rich dto "t1" 5 empty).0 requests

create_once_example :
    (r : TransactionRow) × (table.find later.rows "t1" ≡ some r)
    × (create table string_discrete rich dto "t2" 20 later ≡ (later, ok (r, true)))
unfolding AllFresh create insert_checked validate_memo receiver_exists is_covered
create_once_example =
    create_once table string_discrete empty rich dto "t1" "q1" 5 requests rich dto "t2" 20 refl refl
      refl refl (λ j r f k. cc) refl (tt, (tt, (tt, tt)))
