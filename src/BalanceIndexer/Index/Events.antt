-- ===== src/BalanceIndexer/Index/Events.antt =====
-- What indexing an event does, and that a repeated event does nothing (balance-indexer.service.ts).
use mux_backend.Prelude.{
  ℕ, String, ◌≡◌, refl, sym, ap, ◌∙◌, ◌⊎◌, inl, inr, Bool, true, false, ◌||◌, List, ◌∷◌, ◌++◌,
  arith, Bool-cases, str_eq_iff,
}
use mux_backend.Prelude.Rows.{RowTable}
use mux_backend.BalanceIndexer.Index.{
  Asset, WalletBalance, BalanceChangeEvent, EventKey, balance_key, balance_event_key, same_key,
  has_key, is_older, changes, State, upsert, update_of, apply_balance_update, index_balance_event,
}

same_key_self : (k : EventKey) → same_key k k ≡ true
same_key_self k =
    let a = (str_eq_iff k.wallet_id k.wallet_id).1 refl in
    let b = (str_eq_iff k.asset_type k.asset_type).1 refl in
    let c = (str_eq_iff k.code k.code).1 refl in
    let d = (str_eq_iff k.issuer k.issuer).1 refl in
    let e = (str_eq_iff k.transaction_hash k.transaction_hash).1 refl in ground arith

has_key-cons : (k : EventKey) (ks : List EventKey) → has_key k (k ∷ ks) ≡ true
unfolding has_key
has_key-cons k ks = rw (same_key_self k) refl

module _ (B : RowTable (String × Asset) WalletBalance balance_key) where
  -- The state after an event that is applied.
  abbrev pub after_event : BalanceChangeEvent → ℕ → State B → State B
  after_event e now s = record {
    rows = upsert B e.wallet_id (update_of B e now) now s.rows;
    processed = balance_event_key e ∷ s.processed;
    announced =
        changes e.wallet_id (update_of B e now) (B.find s.rows (e.wallet_id, e.asset))
        ++ s.announced;
  }

  -- An event is applied or skipped.
  pub index_cases :
      (e : BalanceChangeEvent) (now : ℕ) (s : State B)
      → ((has_key (balance_event_key e) s.processed
              || is_older e.ledger_sequence (B.find s.rows (e.wallet_id, e.asset)))
            ≡ true)
          × (index_balance_event B e now s ≡ s)
        ⊎ ((has_key (balance_event_key e) s.processed
              || is_older e.ledger_sequence (B.find s.rows (e.wallet_id, e.asset)))
            ≡ false)
          × (index_balance_event B e now s ≡ after_event e now s)
  unfolding index_balance_event apply_balance_update
  index_cases e now s = elim (Bool-cases (has_key (balance_event_key e) s.processed)) [
    | inl done ↦ rw done (inl (refl, refl))
    | inr new ↦
        elim (Bool-cases (is_older e.ledger_sequence (B.find s.rows (e.wallet_id, e.asset)))) [
          | inl old ↦ rw (new, old) (inl (refl, refl))
          | inr fresh ↦ rw (new, fresh) (inr (refl, refl))
        ]
  ]

  -- Indexing an event a second time changes nothing, at whatever times and whether the event was
  -- applied, was a duplicate or came after an event of a later ledger.
  pub index_twice :
      (e : BalanceChangeEvent) (now later : ℕ) (s : State B)
      → index_balance_event B e later (index_balance_event B e now s)
        ≡ index_balance_event B e now s
  index_twice e now later s = elim (index_cases e now s) [
    | inl (skipped, same) ↦
        ap (index_balance_event B e later) same ∙ unchanged e later s skipped ∙ sym same
    | inr (fresh, same) ↦
        ap (index_balance_event B e later) same
        ∙ unchanged e later (after_event e now s) (marked e now s)
        ∙ sym same
  ]
    where
      clash : {b : Bool} → b ≡ true → b ≡ false → ⊥
      clash p q = cc

      unchanged :
          (e : BalanceChangeEvent) (now : ℕ) (s : State B)
          → (has_key (balance_event_key e) s.processed
              || is_older e.ledger_sequence (B.find s.rows (e.wallet_id, e.asset)))
            ≡ true
          → index_balance_event B e now s ≡ s
      unchanged e now s h = elim (index_cases e now s) [
        | inl (p, same) ↦ same
        | inr (p, same) ↦ absurd (clash h p)
      ]

      marked :
          (e : BalanceChangeEvent) (now : ℕ) (s : State B)
          → (has_key (balance_event_key e) (after_event e now s).processed
              || is_older e.ledger_sequence
                  (B.find (after_event e now s).rows (e.wallet_id, e.asset)))
            ≡ true
      marked e now s = rw (has_key-cons (balance_event_key e) s.processed) refl
