-- ===== src/Limits/Service.antt =====
-- src/limits/limits.service.ts. JavaScript numbers, which are not exact, are a parameter: their sum,
-- difference, comparisons and greater one, and the product by WARNING_THRESHOLD_RATIO. The calls of
-- the database are taken to succeed (they are retried, see Common/Retry), the amounts that they return
-- are arguments; log lines are left out, events are kept newest first.
pub mod Checks
pub mod Removal
use mux_backend.Prelude.{
  ℕ, ◌+◌, String, ◌⊎◌, inl, inr, Bool, true, false, not, ◌&&◌, Option, none, some, List, [], ◌∷◌,
  if◌then◌else◌,
}
use mux_backend.Prelude.Http.{
  not_found, per_tx_limit_exceeded, daily_limit_exceeded, ok, throw, Handler,
}
use mux_backend.Prelude.Table.{Table}

-- The arithmetic of JavaScript as far as the limits use it: `<`, `<=`, `===`, `+`, `-`, `Math.max`
-- and `* WARNING_THRESHOLD_RATIO`.
pub record Numbers : Type 1 where
  pub Number : Type 0
  pub nought : Number
  pub lt : Number → Number → Bool
  pub le : Number → Number → Bool
  pub eq : Number → Number → Bool
  pub add : Number → Number → Number
  pub sub : Number → Number → Number
  pub max : Number → Number → Number
  pub warning_part : Number → Number

pub data LimitKind : Type 0 where
  daily per_transaction : LimitKind

pub record Metrics : Type 0 where
  pub checks_allowed : ℕ
  pub checks_denied : ℕ
  pub exceeded_daily : ℕ

module _ (N : Numbers) where
  pub record WalletLimit : Type 0 where
    pub wallet_id : String
    pub daily_limit : N.Number
    pub per_transaction_limit : N.Number
    pub deleted_at : Option ℕ

  -- LimitUpdatedEvent, LimitExceededEvent and LimitWarningEvent.
  pub data LimitEvent : Type 0 where
    limit_updated : String → LimitKind → Option N.Number → N.Number → LimitEvent
    limit_exceeded : String → LimitKind → N.Number → N.Number → LimitEvent
    limit_warning : String → LimitKind → N.Number → N.Number → LimitEvent

  -- What the two queries of the day return: the amounts of the wallet's transactions, and those of
  -- the payments, which the source does not restrict to the wallet.
  pub record DayAmounts : Type 0 where
    pub transactions : List N.Number
    pub payments : List N.Number

  pub record LimitsResponse : Type 0 where
    pub wallet_id : String
    pub daily_limit : N.Number
    pub per_transaction_limit : N.Number
    pub remaining_daily_limit : Option N.Number

  -- `reduce((sum, a) => sum + a, acc)`
  abbrev pub sum_from : N.Number → List N.Number → N.Number
  sum_from acc [] = acc
  sum_from acc (a ∷ amounts) = sum_from (N.add acc a) amounts

  -- getDailyUsageTotal
  unfoldable pub daily_usage_total : DayAmounts → N.Number
  daily_usage_total d = N.add (sum_from N.nought d.transactions) (sum_from N.nought d.payments)

  abbrev pub is_positive : N.Number → Bool
  is_positive a = N.lt N.nought a

  -- `amount >= limit * WARNING_THRESHOLD_RATIO`
  abbrev pub nearing : N.Number → N.Number → Bool
  nearing amount limit = N.le (N.warning_part limit) amount

  abbrev event_if : Bool → LimitEvent → List LimitEvent → List LimitEvent
  event_if b e events = if b then e ∷ events else events

  abbrev is_nothing : Option N.Number → Bool
  is_nothing none = true
  is_nothing (some a) = false

  module _ (T : Table String WalletLimit) where
    pub record State : Type 0 where
      pub rows : T.Rows
      pub events : List LimitEvent
      pub metrics : Metrics

    abbrev emit : LimitEvent → State → State
    emit e s = record s { events = e ∷ s.events }

    abbrev emit_if : Bool → LimitEvent → State → State
    emit_if b e s = record s { events = event_if b e s.events }

    abbrev pub allow : State → State
    allow s = record s {
      metrics = record s.metrics { checks_allowed = s.metrics.checks_allowed + 1 };
    }

    abbrev deny_daily : State → State
    deny_daily s = record s {
      metrics = record s.metrics {
        exceeded_daily = s.metrics.exceeded_daily + 1;
        checks_denied = s.metrics.checks_denied + 1;
      };
    }

    -- What `setLimits` writes: `update` where the wallet has a row, `create` where it has none.
    abbrev pub limit_row : String → N.Number → N.Number → WalletLimit
    limit_row wallet d per_tx = record {
      wallet_id = wallet;
      daily_limit = d;
      per_transaction_limit = per_tx;
      deleted_at = none;
    }

    unfoldable pub set_limits : String → N.Number → N.Number → State → State × WalletLimit
    set_limits wallet d per_tx s =
        let row : WalletLimit = limit_row wallet d per_tx in
        let s' : State = record s { rows = T.put s.rows wallet row } in
        elim (T.find s.rows wallet) [
          | some old ↦ (
            emit_if (not (N.eq old.per_transaction_limit per_tx))
                (limit_updated wallet per_transaction (some old.per_transaction_limit) per_tx)
                (emit_if (not (N.eq old.daily_limit d))
                  (limit_updated wallet daily (some old.daily_limit) d) s'),
            row,
          )
          | none ↦ (
            emit (limit_updated wallet per_transaction none per_tx)
                (emit (limit_updated wallet daily none d) s'),
            row,
          )
        ]

    abbrev pub response_of : WalletLimit → DayAmounts → LimitsResponse
    response_of l amounts = record {
      wallet_id = l.wallet_id;
      daily_limit = l.daily_limit;
      per_transaction_limit = l.per_transaction_limit;
      remaining_daily_limit =
          if is_positive l.daily_limit
          then some (N.max N.nought (N.sub l.daily_limit (daily_usage_total amounts)))
          else none;
    }

    unfoldable pub get_limits : String → DayAmounts → T.Rows → Option LimitsResponse
    get_limits wallet amounts rows = elim (T.find rows wallet) [
      | none ↦ none
      | some l ↦ some (response_of l amounts)
    ]

    -- The daily check; `projected` is the day's total with the new amount.
    abbrev check_daily : String → LimitsResponse → N.Number → Handler State (Unit {0})
    check_daily wallet l projected s =
        if N.lt l.daily_limit projected
        then (
          emit (limit_exceeded wallet daily l.daily_limit projected) (deny_daily s),
          throw daily_limit_exceeded,
        )
        else (
          allow (
              emit_if (nearing projected l.daily_limit)
                (limit_warning wallet daily l.daily_limit projected) s),
          ok tt,
        )

    abbrev check_with : String → N.Number → DayAmounts → LimitsResponse → Handler State (Unit {0})
    check_with wallet amount amounts l s =
        if N.le N.nought l.per_transaction_limit && N.lt l.per_transaction_limit amount
        then (
          emit (limit_exceeded wallet per_transaction l.per_transaction_limit amount) s,
          throw per_tx_limit_exceeded,
        )
        else (let warned =
              emit_if
                (is_positive l.per_transaction_limit && nearing amount l.per_transaction_limit)
                (limit_warning wallet per_transaction l.per_transaction_limit amount) s in
            if is_positive l.daily_limit
            then check_daily wallet l (N.add (daily_usage_total amounts) amount) warned
            else (allow warned, ok tt))

    unfoldable pub check_limits : String → N.Number → DayAmounts → Handler State (Unit {0})
    unfolding get_limits
    check_limits wallet amount amounts s = elim (get_limits wallet amounts s.rows) [
      | none ↦ (allow s, ok tt)
      | some l ↦ check_with wallet amount amounts l s
    ]

    -- A soft delete: the row stays, with the date of its deletion.
    unfoldable pub remove_limits : String → DayAmounts → ℕ → Handler State WalletLimit
    unfolding get_limits
    remove_limits wallet amounts now s = elim (T.find s.rows wallet) [
      | none ↦ (s, throw not_found)
      | some l ↦
          let row : WalletLimit = record l { deleted_at = some now } in
          (record s { rows = T.put s.rows wallet row }, ok row)
    ]

    abbrev override : Option N.Number → N.Number → N.Number
    override none old = old
    override (some new) old = new

    abbrev changed_event : String → LimitKind → N.Number → Option N.Number → State → State
    changed_event wallet kind old none s = s
    changed_event wallet kind old (some new) s =
        emit_if (not (N.eq old new)) (limit_updated wallet kind (some old) new) s

    -- With nothing to change the code returns what it has read.
    unfoldable pub update_limits :
        String
        → Option N.Number
        → Option N.Number
        → DayAmounts
        → Handler State (LimitsResponse ⊎ WalletLimit)
    update_limits wallet d per_tx amounts s = elim (T.find s.rows wallet) [
      | none ↦ (s, throw not_found)
      | some l ↦
          let row : WalletLimit = record l {
            daily_limit = override d l.daily_limit;
            per_transaction_limit = override per_tx l.per_transaction_limit;
          } in
          if is_nothing d && is_nothing per_tx then (s, ok (inl (response_of l amounts))) else (
            changed_event wallet per_transaction l.per_transaction_limit per_tx (
                changed_event wallet daily l.daily_limit d
                  (record s { rows = T.put s.rows wallet row })),
            ok (inr row),
          )
    ]
