-- ===== src/Transactions/Service.antt =====
-- src/transactions/transactions.service.ts: transactions in the database, behind a cache. The cache
-- key `transaction:${id}` is modelled by the identifier, the JSON of `metadata` by its text. Metrics
-- and log lines are left out; the events that webhooks are told of are kept, newest first.
pub mod Creation
pub mod Replay
pub mod Updates
pub mod Coherence
pub mod Requests
use mux_backend.Prelude.{
  ℕ, String, Bool, true, false, not, Option, none, some, List, ◌∷◌, if◌then◌else◌, str_eq,
}
use mux_backend.Prelude.Http.{
  bad_request, not_found, insufficient_balance, internal_error, Result, ok, throw, Handler, ◌>>=◌,
  ◌>>◌, return, fail, guard,
}
use mux_backend.Prelude.Table.{IndexedTable}
use mux_backend.Common.Cache.{CacheMap}
use mux_backend.Common.Cache
use mux_backend.Common.Memo.{MemoInput, validate_memo}
use mux_backend.Transactions.Model.{
  TransactionStatus, pending, submitted, confirmed, failed, TransactionAsset,
  can_transition_transaction_status,
}

-- A row of the table, which `mapPrismaToEntity` copies field by field.
pub record TransactionRow : Type 0 where
  pub id : String
  pub amount : String
  pub asset : TransactionAsset
  pub sender_wallet_id : String
  pub receiver_wallet_id : Option String
  pub memo : Option MemoInput
  pub status : TransactionStatus
  pub stellar_hash : Option String
  pub stellar_ledger : Option ℕ
  pub stellar_fee : Option String
  pub status_changed_at : ℕ
  pub status_reason : Option String
  pub submitted_at : Option ℕ
  pub confirmed_at : Option ℕ
  pub failed_at : Option ℕ
  pub metadata : Option String
  pub idempotency_key : Option String
  pub created_at : ℕ
  pub updated_at : ℕ

abbrev pub key_of : TransactionRow → Option String
key_of r = r.idempotency_key

pub record CreateTransactionDto : Type 0 where
  pub amount : String
  pub asset : TransactionAsset
  pub sender_wallet_id : String
  pub receiver_wallet_id : Option String
  pub memo : Option MemoInput
  pub metadata : Option String
  pub idempotency_key : Option String

pub record UpdateTransactionStatusDto : Type 0 where
  pub status : TransactionStatus
  pub status_reason : Option String
  pub stellar_hash : Option String
  pub stellar_ledger : Option ℕ
  pub stellar_fee : Option String

pub data DomainEvent : Type 0 where
  created_event submitted_event confirmed_event failed_event : TransactionRow → DomainEvent

-- What the service reads of the other parts: the wallets, the balance of a wallet in an asset by
-- the balance indexer, and the test `parseFloat(a) < parseFloat(b)`.
pub record Environment : Type 0 where
  pub wallet_exists : String → Bool
  pub balance : String → TransactionAsset → Option String
  pub less : String → String → Bool

-- transactions.service.ts, TRANSACTION_CACHE_TTL
abbrev pub transaction_cache_ttl : ℕ
transaction_cache_ttl = 300000

-- A string that is present and not empty is true.
abbrev pub truthy : Option String → Option String
truthy none = none
truthy (some k) = if str_eq k "" then none else some k

abbrev pub override {ℓ} : {A : Type ℓ} → Option A → Option A → Option A
override old none = old
override old (some new) = some new

-- `a ?? b`
abbrev or_default {ℓ} : {A : Type ℓ} → Option A → A → A
or_default none b = b
or_default (some a) b = a

-- The row that `create` inserts; the identifier and the dates are the database's.
unfoldable pub new_row : CreateTransactionDto → String → ℕ → TransactionRow
new_row dto id now = record {
  id = id;
  amount = dto.amount;
  asset = dto.asset;
  sender_wallet_id = dto.sender_wallet_id;
  receiver_wallet_id = dto.receiver_wallet_id;
  memo = dto.memo;
  status = pending;
  stellar_hash = none;
  stellar_ledger = none;
  stellar_fee = none;
  status_changed_at = now;
  status_reason = none;
  submitted_at = none;
  confirmed_at = none;
  failed_at = none;
  metadata = dto.metadata;
  idempotency_key = dto.idempotency_key;
  created_at = now;
  updated_at = now;
}

abbrev stamp_row : TransactionStatus → ℕ → TransactionRow → TransactionRow
stamp_row pending now r = r
stamp_row submitted now r = record r { submitted_at = some now }
stamp_row confirmed now r = record r { confirmed_at = some now }
stamp_row failed now r = record r { failed_at = some now }

-- `updateData` merged into the row.
unfoldable pub updated_row : TransactionRow → UpdateTransactionStatusDto → ℕ → TransactionRow
updated_row r dto now = stamp_row dto.status now (record r {
  status = dto.status;
  status_changed_at = now;
  updated_at = now;
  status_reason = override r.status_reason dto.status_reason;
  stellar_hash = override r.stellar_hash dto.stellar_hash;
  stellar_ledger = override r.stellar_ledger dto.stellar_ledger;
  stellar_fee = override r.stellar_fee dto.stellar_fee;
})

-- emitStatusDomainEvent
abbrev pub status_event : TransactionRow → List DomainEvent → List DomainEvent
status_event r outbox = elim r.status [
  | pending ↦ outbox
  | submitted ↦ submitted_event r ∷ outbox
  | confirmed ↦ confirmed_event r ∷ outbox
  | failed ↦ failed_event r ∷ outbox
]

-- A receiver is looked up only where one is named.
unfoldable pub receiver_exists : Environment → CreateTransactionDto → Bool
receiver_exists env dto = elim (truthy dto.receiver_wallet_id) [
  | none ↦ true
  | some w ↦ env.wallet_exists w
]

-- A balance that the indexer does not know is '0'.
unfoldable pub is_covered : Environment → CreateTransactionDto → Bool
is_covered env dto =
    not (env.less (or_default (env.balance dto.sender_wallet_id dto.asset) "0") dto.amount)

module _ (T : IndexedTable String TransactionRow key_of) (same : Discrete String) where
  pub record State : Type 0 where
    pub rows : T.Rows
    pub cache : CacheMap String TransactionRow
    pub outbox : List DomainEvent

  -- The row, and whether it is a replay of an earlier request.
  abbrev pub Created : Type 0
  Created = TransactionRow × Bool

  -- `if (!validated) throw`, for a check that has no result.
  abbrev lift : Result (Unit {0}) → Handler State (Unit {0})
  lift (ok u) = return u
  lift (throw e) = fail e

  abbrev pub inserted : CreateTransactionDto → String → ℕ → State → State
  inserted dto id now s =
      let r = new_row dto id now in
      record s { rows = T.put s.rows id r; outbox = created_event r ∷ s.outbox }

  -- The row that the unique column idempotencyKey holds a key in; null is no key, the empty text is.
  abbrev pub taken_by : Option String → T.Rows → Option TransactionRow
  taken_by none rows = none
  taken_by (some q) rows = T.find_by rows q

  -- A key that is taken violates the unique constraint.
  abbrev pub insert : CreateTransactionDto → String → ℕ → Handler State Created
  insert dto id now s = elim (taken_by dto.idempotency_key s.rows) [
    | none ↦ (inserted dto id now s, ok (new_row dto id now, false))
    | some taken ↦ (s, throw internal_error)
  ]

  unfoldable pub insert_checked :
      Environment → CreateTransactionDto → String → ℕ → Handler State Created
  insert_checked env dto id now = do
    guard (env.wallet_exists dto.sender_wallet_id) not_found
    guard (receiver_exists env dto) not_found
    guard (is_covered env dto) insufficient_balance
    insert dto id now

  unfoldable pub create : Environment → CreateTransactionDto → String → ℕ → Handler State Created
  create env dto id now = do
    lift (validate_memo dto.memo)
    λ s. elim (truthy dto.idempotency_key) [
      | none ↦ insert_checked env dto id now s
      | some q ↦ elim (T.find_by s.rows q) [
        | none ↦ insert_checked env dto id now s
        | some existing ↦ (s, ok (existing, true))
      ]
    ]

  unfoldable pub find_one : String → ℕ → Handler State TransactionRow
  find_one id now s =
      let (hit, cache) = Cache.get same id now s.cache in
      elim hit [
        | some r ↦ (record s { cache = cache }, ok r)
        | none ↦ elim (T.find s.rows id) [
          | none ↦ (record s { cache = cache }, throw not_found)
          | some r ↦
              (record s { cache = Cache.set same id r transaction_cache_ttl now cache }, ok r)
        ]
      ]

  -- The writes of `updateStatus`, once the row is read and the status change is allowed.
  abbrev write_update :
      String → UpdateTransactionStatusDto → ℕ → TransactionRow → Handler State TransactionRow
  write_update id dto now r s =
      let u = updated_row r dto now in
      (
        record s {
          rows = T.put s.rows id u;
          cache = (Cache.delete same id s.cache).1;
          outbox = status_event u s.outbox;
        },
        ok u,
      )

  unfoldable pub update_status :
      String → UpdateTransactionStatusDto → ℕ → Handler State TransactionRow
  update_status id dto now s = elim (T.find s.rows id) [
    | none ↦ (s, throw not_found)
    | some r ↦
        if can_transition_transaction_status r.status dto.status
        then write_update id dto now r s
        else (s, throw bad_request)
  ]
