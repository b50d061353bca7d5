-- ===== src/BalanceIndexer/Index.antt =====
-- src/balance-indexer/balance-indexer.service.ts, what writes the index, with balance.repository.ts
-- and domain/balance.model.ts. A row is keyed by its wallet and asset, and a balance is the text that
-- Horizon gives. The texts of an event's key are compared part by part, since no part has a colon.
-- The key of a row may have a null code and issuer, as for the native asset; that the client finds and
-- upserts such a row is taken here as the code expects it. The clock is an argument; the label and the difference that an announcement carries are left out.
pub mod Events
pub mod Ledgers
use mux_backend.Prelude.{
  ℕ, ◌+◌, ◌-◌, String, Bool, true, false, not, ◌&&◌, ◌||◌, Option, none, some, List, [], ◌∷◌, ◌++◌,
  ltb, ◌==◌, if◌then◌else◌, str_eq,
}
use mux_backend.Prelude.Rows.{RowTable}

pub data BalanceSyncStatus : Type 0 where
  synced stale mismatch failed : BalanceSyncStatus

pub record Asset : Type 0 where
  pub asset_type : String
  pub code : Option String
  pub issuer : Option String

pub record WalletBalance : Type 0 where
  pub wallet_id : String
  pub asset : Asset
  pub balance : String
  pub sync_status : BalanceSyncStatus
  pub last_synced_at : Option ℕ
  pub last_synced_ledger : Option ℕ
  pub on_chain_balance : Option String
  pub updated_at : ℕ

pub record BalanceUpdate : Type 0 where
  pub asset : Asset
  pub balance : String
  pub ledger_sequence : ℕ
  pub timestamp : ℕ

pub record BalanceChangeEvent : Type 0 where
  pub wallet_id : String
  pub asset : Asset
  pub balance : String
  pub ledger_sequence : ℕ
  pub timestamp : Option ℕ
  pub transaction_hash : String

-- What the webhook `balance.updated` tells.
pub record BalanceUpdated : Type 0 where
  pub wallet_id : String
  pub asset : Asset
  pub previous_balance : String
  pub new_balance : String

pub record EventKey : Type 0 where
  pub wallet_id : String
  pub asset_type : String
  pub code : String
  pub issuer : String
  pub ledger_sequence : ℕ
  pub transaction_hash : String

pub record Applied : Type 0 where
  pub updated : Bool
  pub mismatch : Bool

abbrev pub balance_key : WalletBalance → String × Asset
balance_key b = (b.wallet_id, b.asset)

abbrev pub native_asset : Asset
native_asset = record { asset_type = "NATIVE"; code = none; issuer = none }

abbrev pub or_empty : Option String → String
or_empty none = ""
or_empty (some c) = c

-- balanceEventKey
abbrev pub balance_event_key : BalanceChangeEvent → EventKey
balance_event_key e = record {
  wallet_id = e.wallet_id;
  asset_type = e.asset.asset_type;
  code = or_empty e.asset.code;
  issuer = or_empty e.asset.issuer;
  ledger_sequence = e.ledger_sequence;
  transaction_hash = e.transaction_hash;
}

abbrev pub same_key : EventKey → EventKey → Bool
same_key a b =
    str_eq a.wallet_id b.wallet_id
    && str_eq a.asset_type b.asset_type
    && str_eq a.code b.code
    && str_eq a.issuer b.issuer
    && (a.ledger_sequence == b.ledger_sequence)
    && str_eq a.transaction_hash b.transaction_hash

-- processedBalanceEvents.has
unfoldable pub has_key : EventKey → List EventKey → Bool
has_key k [] = false
has_key k (j ∷ js) = same_key k j || has_key k js

-- The columns that an upsert writes.
abbrev pub indexed : BalanceUpdate → ℕ → WalletBalance → WalletBalance
indexed u now b = record b {
  balance = u.balance;
  sync_status = synced;
  last_synced_at = some u.timestamp;
  last_synced_ledger = some u.ledger_sequence;
  on_chain_balance = some u.balance;
  updated_at = now;
}

abbrev pub new_balance : String → BalanceUpdate → ℕ → WalletBalance
new_balance wallet u now = record {
  wallet_id = wallet;
  asset = u.asset;
  balance = u.balance;
  sync_status = synced;
  last_synced_at = some u.timestamp;
  last_synced_ledger = some u.ledger_sequence;
  on_chain_balance = some u.balance;
  updated_at = now;
}

abbrev pub new_zero : String → ℕ → WalletBalance
new_zero wallet now = record {
  wallet_id = wallet;
  asset = native_asset;
  balance = "0";
  sync_status = synced;
  last_synced_at = some now;
  last_synced_ledger = none;
  on_chain_balance = none;
  updated_at = now;
}

abbrev pub zeroed : ℕ → WalletBalance → WalletBalance
zeroed now b = record b {
  balance = "0";
  sync_status = synced;
  last_synced_at = some now;
  updated_at = now;
}

abbrev pub marked_failed : ℕ → WalletBalance → WalletBalance
marked_failed now b = record b { sync_status = failed; updated_at = now }

-- `existing?.lastSyncedLedger != null && ledger < existing.lastSyncedLedger`
abbrev pub is_before : ℕ → Option ℕ → Bool
is_before ledger none = false
is_before ledger (some l) = ltb ledger l

abbrev pub is_older : ℕ → Option WalletBalance → Bool
is_older ledger none = false
is_older ledger (some b) = is_before ledger b.last_synced_ledger

-- `existing != null && existing.balance !== balance`
abbrev pub is_mismatch : String → Option WalletBalance → Bool
is_mismatch balance none = false
is_mismatch balance (some b) = not (str_eq b.balance balance)

-- The announcement of an update, if the stored value changes.
abbrev pub changes : String → BalanceUpdate → Option WalletBalance → List BalanceUpdated
changes wallet u none = []
changes wallet u (some b) =
    if str_eq b.balance u.balance
    then []
    else record {
      wallet_id = wallet;
      asset = u.asset;
      previous_balance = b.balance;
      new_balance = u.balance;
    }
      ∷ []

module _ (B : RowTable (String × Asset) WalletBalance balance_key) where
  pub record State : Type 0 where
    pub rows : B.Rows
    pub processed : List EventKey
    pub announced : List BalanceUpdated

  abbrev pub upsert_at : Option WalletBalance → String → BalanceUpdate → ℕ → B.Rows → B.Rows
  upsert_at none wallet u now rows = B.put rows (new_balance wallet u now)
  upsert_at (some b) wallet u now rows = B.put rows (indexed u now b)

  -- BalanceRepository.upsert
  unfoldable pub upsert : String → BalanceUpdate → ℕ → B.Rows → B.Rows
  upsert wallet u now rows = upsert_at (B.find rows (wallet, u.asset)) wallet u now rows

  abbrev pub zero_at : Option WalletBalance → String → ℕ → B.Rows → B.Rows
  zero_at none wallet now rows = B.put rows (new_zero wallet now)
  zero_at (some b) wallet now rows = B.put rows (zeroed now b)

  -- BalanceRepository.upsertNativeZero
  unfoldable pub upsert_native_zero : String → ℕ → B.Rows → B.Rows
  upsert_native_zero wallet now rows = zero_at (B.find rows (wallet, native_asset)) wallet now rows

  -- BalanceRepository.markFailed
  unfoldable pub mark_failed : String → ℕ → B.Rows → B.Rows
  mark_failed wallet now rows =
      B.update_many rows (λ b. str_eq b.wallet_id wallet) (marked_failed now)

  unfoldable pub apply_balance_update : String → BalanceUpdate → Bool → ℕ → State → State × Applied
  apply_balance_update wallet u force now s =
      let existing = B.find s.rows (wallet, u.asset) in
      if not force && is_older u.ledger_sequence existing
      then (s, record { updated = false; mismatch = false })
      else (
        record s {
          rows = upsert wallet u now s.rows;
          announced = changes wallet u existing ++ s.announced;
        },
        record { updated = true; mismatch = is_mismatch u.balance existing },
      )

  abbrev pub update_of : BalanceChangeEvent → ℕ → BalanceUpdate
  update_of e now = record {
    asset = e.asset;
    balance = e.balance;
    ledger_sequence = e.ledger_sequence;
    timestamp = elim e.timestamp [ none ↦ now | some t ↦ t ];
  }

  -- A duplicate and an event of an older ledger are skipped.
  unfoldable pub index_balance_event : BalanceChangeEvent → ℕ → State → State
  index_balance_event e now s =
      if has_key (balance_event_key e) s.processed
      then s
      else (if is_older e.ledger_sequence (B.find s.rows (e.wallet_id, e.asset))
          then s
          else (let s' = (apply_balance_update e.wallet_id (update_of e now) true now s).0 in
              record s' { processed = balance_event_key e ∷ s'.processed }))

  abbrev pub is_balance_stale : ℕ → ℕ → WalletBalance → Bool
  is_balance_stale threshold now b = elim b.last_synced_at [
    | none ↦ true
    | some t ↦ ltb threshold (now - t)
  ]
