-- ===== src/Payments/Service.antt =====
-- src/payments/payments.service.ts: the update of a payment. The identifier is the number that
-- parseInt returns; an amount, which is only copied, stands as an integer. The status history, which is written
-- without waiting for it, is taken to succeed and keeps the latest entry first; the metric of
-- failures, log lines and the columns that no update reads or writes are left out.
pub mod Announced
use mux_backend.Prelude.{ℕ, String, Bool, true, false, Option, none, some, List, ◌∷◌, if◌then◌else◌}
use mux_backend.Prelude.Http.{bad_request, not_found, ok, throw, Handler}
use mux_backend.Prelude.Int.{ℤ}
use mux_backend.Prelude.Table.{Table}

pub data PaymentStatus : Type 0 where
  pending confirmed failed : PaymentStatus

pub record Payment : Type 0 where
  pub id : ℕ
  pub amount : ℤ
  pub currency : String
  pub asset_code : Option String
  pub status : PaymentStatus
  pub description : Option String
  pub user_id : Option ℕ

pub record UpdatePaymentDto : Type 0 where
  pub status : Option PaymentStatus
  pub description : Option String

-- PaymentCompletedEvent and PaymentFailedEvent.
pub data PaymentEvent : Type 0 where
  completed_event failed_event : ℕ → ℤ → String → Option ℕ → PaymentEvent

-- An entry of the status history: the payment, and the statuses before and after.
abbrev pub HistoryEntry : Type 0
HistoryEntry = ℕ × PaymentStatus × PaymentStatus

-- ALLOWED_TRANSITIONS[from].includes(to)
unfoldable pub can_transition_payment_status : PaymentStatus → PaymentStatus → Bool
can_transition_payment_status pending confirmed = true
can_transition_payment_status pending failed = true
can_transition_payment_status _ _ = false

abbrev pub status_allowed : PaymentStatus → Option PaymentStatus → Bool
status_allowed from none = true
status_allowed from (some to) = can_transition_payment_status from to

-- `data: updatePaymentDto` merged into the row: absent keys are kept.
unfoldable pub merged : Payment → UpdatePaymentDto → Payment
merged p dto = record p {
  status = elim dto.status [ none ↦ p.status | some to ↦ to ];
  description = elim dto.description [ none ↦ p.description | some text ↦ some text ];
}

-- The event that a requested status emits.
abbrev pub emitted : Payment → Option PaymentStatus → List PaymentEvent → List PaymentEvent
emitted p (some confirmed) events = completed_event p.id p.amount p.currency p.user_id ∷ events
emitted p (some failed) events = failed_event p.id p.amount p.currency p.user_id ∷ events
emitted p _ events = events

abbrev pub recorded : Payment → Option PaymentStatus → List HistoryEntry → List HistoryEntry
recorded p none history = history
recorded p (some to) history = (p.id, p.status, to) ∷ history

module _ (T : Table ℕ Payment) where
  pub record State : Type 0 where
    pub rows : T.Rows
    pub history : List HistoryEntry
    pub events : List PaymentEvent

  abbrev pub write : ℕ → UpdatePaymentDto → Payment → State → State
  write id dto p s = record s {
    rows = T.put s.rows id (merged p dto);
    history = recorded p dto.status s.history;
    events = emitted (merged p dto) dto.status s.events;
  }

  unfoldable pub update : ℕ → UpdatePaymentDto → Handler State Payment
  update id dto s = elim (T.find s.rows id) [
    | none ↦ (s, throw not_found)
    | some p ↦
        if status_allowed p.status dto.status
        then (write id dto p s, ok (merged p dto))
        else (s, throw bad_request)
  ]
