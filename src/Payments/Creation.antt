-- ===== src/Payments/Creation.antt =====
-- src/payments/payments.service.ts, create. What the other services answer once their
-- retries are over is an argument: the status of a wallet, the check of the limits, and the transaction
-- that is created, built, signed and submitted, with its identifier and whether it failed. The
-- identifier of a new row is an argument as well; amounts are only copied and passed on; metrics and
-- log lines are left out.
pub mod Once
use mux_backend.Prelude.{
  ℕ, String, Bool, true, false, not, ◌&&◌, ◌||◌, Option, none, some, List, ◌∷◌, ◌==◌, if◌then◌else◌,
  str_eq,
}
use mux_backend.Prelude.Http.{bad_request, internal_error, Result, ok, throw}
use mux_backend.Prelude.Int.{ℤ}
use mux_backend.Prelude.Rows.{RowTable}
use mux_backend.Wallets.Model.{WalletStatus}
use mux_backend.Wallets.Service.{is_active}
use mux_backend.Wallets.Creation.{truthy}
use mux_backend.Payments.Service.{PaymentStatus, pending, confirmed, failed}

pub record CreatePaymentDto : Type 0 where
  pub from_id : ℕ
  pub to_id : ℕ
  pub wallet_id : String
  pub receiver_wallet_id : String
  pub amount : ℤ
  pub currency : String
  pub asset_code : Option String
  pub description : Option String
  pub idempotency_key : Option String

pub record StoredPayment : Type 0 where
  pub id : ℕ
  pub from_id : ℕ
  pub to_id : ℕ
  pub user_id : ℕ
  pub amount : ℤ
  pub currency : String
  pub asset_code : Option String
  pub description : Option String
  pub status : PaymentStatus
  pub idempotency_key : Option String
  pub sender_wallet_id : String
  pub receiver_wallet_id : String
  pub transaction_id : Option String

-- PaymentCreatedEvent
pub record PaymentCreated : Type 0 where
  pub payment_id : ℕ
  pub amount : ℤ
  pub currency : String
  pub user_id : ℕ

-- The transaction that was submitted, and whether its status is FAILED.
pub record Submission : Type 0 where
  pub transaction_id : String
  pub is_failed : Bool

-- `orchestration` is none where the optional services are not configured.
pub record Environment : Type 0 where
  pub is_production : Bool
  pub block_self_payments : Bool
  pub wallet_status : String → Result WalletStatus
  pub check_limits : String → ℤ → Result (Unit {0})
  pub orchestration : Option (Result Submission)
  pub new_id : ℕ

abbrev pub payment_id : StoredPayment → ℕ
payment_id p = p.id

abbrev pub is_key : String → Option String → Bool
is_key k none = false
is_key k (some j) = str_eq j k

abbrev pub has_key : String → StoredPayment → Bool
has_key k p = is_key k p.idempotency_key

-- validateForCreation, from its end.
abbrev pub receiver_found : Result WalletStatus → Result (Unit {0}) → Result (Unit {0})
receiver_found (throw e) limits = throw e
receiver_found (ok w) limits = limits

abbrev pub sender_found : CreatePaymentDto → Environment → Result WalletStatus → Result (Unit {0})
sender_found q env (throw e) = throw e
sender_found q env (ok status) =
    if not (is_active status)
    then throw bad_request
    else (if env.block_self_payments && (q.from_id == q.to_id)
        then throw bad_request
        else receiver_found (env.wallet_status q.receiver_wallet_id)
            (env.check_limits q.wallet_id q.amount))

unfoldable pub validate_for_creation : CreatePaymentDto → Environment → Result (Unit {0})
validate_for_creation q env = sender_found q env (env.wallet_status q.wallet_id)

abbrev pub new_payment : CreatePaymentDto → Environment → StoredPayment
new_payment q env = record {
  id = env.new_id;
  from_id = q.from_id;
  to_id = q.to_id;
  user_id = q.from_id;
  amount = q.amount;
  currency = q.currency;
  asset_code = q.asset_code;
  description = q.description;
  status = pending;
  idempotency_key = q.idempotency_key;
  sender_wallet_id = q.wallet_id;
  receiver_wallet_id = q.receiver_wallet_id;
  transaction_id = none;
}

abbrev pub submitted : Submission → StoredPayment → StoredPayment
submitted t p = record p {
  transaction_id = some t.transaction_id;
  status = if t.is_failed then failed else confirmed;
}

abbrev pub created_event : StoredPayment → PaymentCreated
created_event p = record {
  payment_id = p.id;
  amount = p.amount;
  currency = p.currency;
  user_id = p.user_id;
}

abbrev pub is_configured : Environment → Bool
is_configured env = not env.is_production || elim env.orchestration [ none ↦ false | some r ↦ true ]

module _ (P : RowTable ℕ StoredPayment payment_id) where
  pub record State : Type 0 where
    pub rows : P.Rows
    pub events : List PaymentCreated

  -- The row of the idempotency key.
  abbrev pub keyed : Option String → P.Rows → Option StoredPayment
  keyed none rows = none
  keyed (some k) rows = P.find_first rows (has_key k)

  -- What follows the insertion; what is returned is the row as it was inserted.
  abbrev pub orchestrate :
      StoredPayment → Option (Result Submission) → State → State × Result StoredPayment
  orchestrate p none s = (record s { events = created_event p ∷ s.events }, ok p)
  orchestrate p (some (throw e)) s = (s, throw e)
  orchestrate p (some (ok t)) s =
      (record { rows = P.put s.rows (submitted t p); events = created_event p ∷ s.events }, ok p)

  -- A key or an identifier that is taken violates a unique constraint.
  abbrev pub insert_at :
      CreatePaymentDto
      → Environment
      → Option StoredPayment
      → Option StoredPayment
      → State
      → State × Result StoredPayment
  insert_at q env none none s =
      orchestrate (new_payment q env) env.orchestration
        (record s { rows = P.put s.rows (new_payment q env) })
  insert_at q env taken same s = (s, throw internal_error)

  abbrev pub validated :
      CreatePaymentDto → Environment → Result (Unit {0}) → State → State × Result StoredPayment
  validated q env (throw e) s = (s, throw e)
  validated q env (ok u) s =
      insert_at q env (keyed q.idempotency_key s.rows) (P.find s.rows env.new_id) s

  abbrev pub create_or_replay :
      CreatePaymentDto → Environment → Option StoredPayment → State → State × Result StoredPayment
  create_or_replay q env (some p) s = (s, ok p)
  create_or_replay q env none s = validated q env (validate_for_creation q env) s

  unfoldable pub create : CreatePaymentDto → Environment → State → State × Result StoredPayment
  create q env s =
      if not (is_configured env)
      then (s, throw internal_error)
      else create_or_replay q env (keyed (truthy q.idempotency_key) s.rows) s
