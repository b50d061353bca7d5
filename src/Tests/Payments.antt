-- ===== src/Tests/Payments.antt =====
-- Examples for the payments.
use mux_backend.Prelude.{ℕ, ◌≡◌, ◌≢◌, refl, none, some, List, [], ◌∷◌}
use mux_backend.Prelude.Int.{pos}
use mux_backend.Prelude.Table.{Table, function_table}
use mux_backend.Payments.Service.{
  pending, confirmed, failed, Payment, UpdatePaymentDto, State, completed_event, failed_event,
}
use mux_backend.Payments.Service.Announced.{Kept, run, on, run_outcome}
use native.Mathlib.Decide.{ℕ_discrete}

abbrev payment : Payment
payment = record {
  id = 7;
  amount = pos 100;
  currency = "XLM";
  asset_code = none;
  status = pending;
  description = none;
  user_id = some 1;
}

abbrev payments : Table ℕ Payment
payments = function_table ℕ_discrete

abbrev state : State payments
state = record { rows = λ k. some payment; history = []; events = [] }

abbrev wanted : List UpdatePaymentDto
wanted =
    record { status = none; description = some "rent" }
    ∷ record { status = some confirmed; description = none }
    ∷ record { status = some failed; description = none }
    ∷ []

run_outcome_example :
    let s' = run payments state (on payments 7 wanted) in
    (u : Payment) × (payments.find s'.rows 7 ≡ some u)
    × Kept payment u
    × (pending ≢ pending → (u.status ≡ pending) × (s'.events ≡ []))
    × (pending ≡ pending
        → (u.status ≡ confirmed → s'.events ≡ completed_event 7 (pos 100) "XLM" (some 1) ∷ [])
          × (u.status ≡ failed → s'.events ≡ failed_event 7 (pos 100) "XLM" (some 1) ∷ [])
          × (u.status ≡ pending → s'.events ≡ []))
run_outcome_example = run_outcome payments state 7 wanted payment refl
