-- ===== src/Transactions/Horizon/Codes.antt =====
-- Which answers of Horizon lead to which status (horizon-result.mapper.ts).
use mux_backend.Prelude.{String, ◌≡◌, refl, ◌≢◌, ◌↔◌, ◌⊎◌, true, some, arith, str_eq_iff}
use mux_backend.Transactions.Model.{submitted, confirmed}
use mux_backend.Transactions.Horizon.{
  HorizonTransactionResult, status_of_code, tx_code, map_horizon_result_to_status,
}

code-confirmed :
    (c : String)
    → (status_of_code c ≡ confirmed) ↔ ((c ≡ "tx_success") ⊎ (c ≡ "tx_fee_bump_inner_success"))
unfolding status_of_code
code-confirmed c = (
  λ e. ground (
    arith,
    str_eq_iff c "tx_success",
    str_eq_iff c "tx_fee_bump_inner_success",
    str_eq_iff c "tx_queued",
  ),
  λ e. ground (arith, str_eq_iff c "tx_success", str_eq_iff c "tx_fee_bump_inner_success"),
)

code-submitted : (c : String) → (status_of_code c ≡ submitted) ↔ (c ≡ "tx_queued")
unfolding status_of_code
code-submitted c = (
  λ e. ground (
    arith,
    str_eq_iff c "tx_success",
    str_eq_iff c "tx_fee_bump_inner_success",
    str_eq_iff c "tx_queued",
  ),
  λ e. rw e refl,
)

-- An answer confirms a transaction exactly when it is not the in-flight answer 202 and either
-- carries `successful: true` or one of the two codes of success.
pub map-confirmed_iff :
    (r : HorizonTransactionResult)
    → (map_horizon_result_to_status r ≡ confirmed) ↔ (
        (r.http_status ≢ some 202)
        × ((r.successful ≡ some true)
            ⊎ (tx_code r ≡ "tx_success")
            ⊎ (tx_code r ≡ "tx_fee_bump_inner_success")))
unfolding map_horizon_result_to_status
map-confirmed_iff r = (
  λ e. ground (arith, code-confirmed (tx_code r)),
  λ e. ground (arith, code-confirmed (tx_code r)),
)

-- No answer leaves a transaction undecided but the in-flight answer 202 and, where `successful` is
-- not true, the code `tx_queued`: every other code that is not one of success fails it.
pub map-submitted_iff :
    (r : HorizonTransactionResult)
    → (map_horizon_result_to_status r ≡ submitted)
      ↔ ((r.http_status ≡ some 202) ⊎ ((r.successful ≢ some true) × (tx_code r ≡ "tx_queued")))
unfolding map_horizon_result_to_status
map-submitted_iff r = (
  λ e. ground (arith, code-submitted (tx_code r)),
  λ e. ground (arith, code-submitted (tx_code r)),
)
