-- ===== src/Tests/NewPayments.antt =====
-- Examples for the creation of payments, with a table that is a function from its keys to its rows.
use mux_backend.Prelude.{ℕ, String, ◌≡◌, refl, inr, true, false, none, some, []}
use native.Mathlib.Decide.{ℕ_discrete}
use mux_backend.Prelude.Int.{ℤ, pos}
use mux_backend.Prelude.Http.{internal_error, Result, ok, throw}
use mux_backend.Prelude.Rows.{RowTable, function_rows, no_rows}
use mux_backend.Wallets.Model.{WalletStatus, active}
use mux_backend.Payments.Creation.{
  CreatePaymentDto, StoredPayment, Environment, payment_id, validate_for_creation, State, create,
}
use mux_backend.Payments.Creation.Once.{IsLeft, create-replayed}

abbrev table : RowTable ℕ StoredPayment payment_id
table = function_rows payment_id ℕ_discrete

abbrev start : State table
start = record { rows = no_rows payment_id ℕ_discrete; events = [] }

abbrev every_wallet : String → Result WalletStatus
every_wallet id = ok active

abbrev no_limit : String → ℤ → Result (Unit {0})
no_limit id amount = ok tt

-- The submission throws.
abbrev unreachable : Environment
unreachable = record {
  is_production = true;
  block_self_payments = false;
  wallet_status = every_wallet;
  check_limits = no_limit;
  orchestration = some (throw internal_error);
  new_id = 1;
}

abbrev request : CreatePaymentDto
request = record {
  from_id = 7;
  to_id = 8;
  wallet_id = "w1";
  receiver_wallet_id = "w2";
  amount = pos 5;
  currency = "XLM";
  asset_code = none;
  description = none;
  idempotency_key = some "i1";
}

abbrev later : Environment
later = record unreachable {
  orchestration = some (ok (record { transaction_id = "t1"; is_failed = false }));
  new_id = 2;
}

create-replayed_example :
    let s = (create table request unreachable start).0 in
    (p : StoredPayment) × (create table request later s ≡ (s, ok p))
    × IsLeft table request "i1" (some (throw internal_error)) p
unfolding validate_for_creation
create-replayed_example =
    create-replayed table request request unreachable later start "i1" refl refl refl
      (inr (λ e. cc)) (inr (λ e. cc)) refl refl refl
