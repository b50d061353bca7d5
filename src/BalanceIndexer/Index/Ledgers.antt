-- ===== src/BalanceIndexer/Index/Ledgers.antt =====
-- The ledger of an indexed balance never goes back (balance-indexer.service.ts).
use mux_backend.Prelude.{
  ℕ, ◌≤◌, String, ◌≡◌, refl, sym, ◌∙◌, subst, inl, inr, Bool, false, ◌||◌, Option, none, some, List,
  [], ◌∷◌, arith, Bool-cases, str_eq,
}
use mux_backend.Prelude.Rows.{RowTable, change_row}
use mux_backend.BalanceIndexer.Index.{
  Asset, WalletBalance, BalanceUpdate, BalanceChangeEvent, balance_key, native_asset, indexed,
  new_balance, new_zero, zeroed, marked_failed, is_before, is_older, State, upsert_at, upsert,
  zero_at, upsert_native_zero, mark_failed, update_of, apply_balance_update, index_balance_event,
}
use mux_backend.BalanceIndexer.Index.Events.{index_cases}
use mux_backend.BalanceIndexer.Sync.{
  Account, unknown_wallet, not_on_chain, unreachable, holds, breaks_after_zero, breaks_after,
  apply_all, sync_wallet_balances,
}

-- What writes the index, a synchronisation without `forceRefresh`.
pub data Request : Type 0 where
  indexes : BalanceChangeEvent → ℕ → Request
  syncs : String → Account → ℕ → Request

module _ (B : RowTable (String × Asset) WalletBalance balance_key) where
  unfoldable pub step : State B → Request → State B
  step s (indexes e now) = index_balance_event B e now s
  step s (syncs wallet account now) = (sync_wallet_balances B wallet false account now s).0

  unfoldable pub run : State B → List Request → State B
  run s [] = s
  run s (q ∷ qs) = run (step s q) qs

  abbrev pub Reaches : ℕ → Option ℕ → Type 0
  Reaches l none = ⊥
  Reaches l (some m) = l ≤ m

  abbrev pub RowReaches : ℕ → Option WalletBalance → Type 0
  RowReaches l none = ⊥
  RowReaches l (some b) = Reaches l b.last_synced_ledger

  -- The balance is indexed, as of the ledger or a later one.
  abbrev pub IsIndexed : String × Asset → ℕ → B.Rows → Type 0
  IsIndexed k l rows = RowReaches l (B.find rows k)

  put-IsIndexed :
      (rows : B.Rows) (b : WalletBalance) (k : String × Asset) (l : ℕ)
      → Discrete (String × Asset)
      → (balance_key b ≡ k → Reaches l b.last_synced_ledger)
      → IsIndexed k l rows
      → IsIndexed k l (B.put rows b)
  put-IsIndexed rows b k l dec h r = elim (dec k (balance_key b)) [
    | yes p ↦
        subst (RowReaches l)
          (sym (subst (λ j. B.find (B.put rows b) j ≡ some b) (sym p) (B.find-put rows b)))
          (h (sym p))
    | no p ↦ subst (RowReaches l) (sym (B.find-put_ne rows b k p)) r
  ]

  -- The row that stands at a key reaches what the key reaches.
  stored-Reaches :
      (rows : B.Rows) (j k : String × Asset) (b : WalletBalance) (l : ℕ)
      → B.find rows j ≡ some b
      → IsIndexed k l rows
      → balance_key b ≡ k
      → Reaches l b.last_synced_ledger
  stored-Reaches rows j k b l e r p =
      subst (RowReaches l) (subst (λ i. B.find rows i ≡ some b) (sym (B.key-find rows j b e) ∙ p) e)
        r

  forward : (l u : ℕ) (o : Option ℕ) → is_before u o ≡ false → Reaches l o → l ≤ u
  forward l u none e r = absurd r
  forward l u (some m) e r = ground arith

  missing :
      (rows : B.Rows) (j k : String × Asset) (l : ℕ)
      → B.find rows j ≡ none
      → IsIndexed k l rows
      → j ≡ k
      → ⊥
  missing rows j k l e r p = subst (RowReaches l) (subst (λ i. B.find rows i ≡ none) p e) r

  upsert-IsIndexed :
      (wallet : String) (u : BalanceUpdate) (now : ℕ) (rows : B.Rows) (k : String × Asset) (l : ℕ)
      → Discrete (String × Asset)
      → is_older u.ledger_sequence (B.find rows (wallet, u.asset)) ≡ false
      → IsIndexed k l rows
      → IsIndexed k l (upsert B wallet u now rows)
  unfolding upsert
  upsert-IsIndexed wallet u now rows k l dec fresh r = go (B.find rows (wallet, u.asset)) refl fresh
    where
      go :
          (o : Option WalletBalance)
          → B.find rows (wallet, u.asset) ≡ o
          → is_older u.ledger_sequence o ≡ false
          → IsIndexed k l (upsert_at B o wallet u now rows)
      go none e f =
          put-IsIndexed rows (new_balance wallet u now) k l dec
            (λ p. absurd (missing rows (wallet, u.asset) k l e r p)) r
      go (some b) e f =
          put-IsIndexed rows (indexed u now b) k l dec
            (λ p.
              forward l u.ledger_sequence b.last_synced_ledger f
                (stored-Reaches rows (wallet, u.asset) k b l e r p))
            r

  zero-IsIndexed :
      (wallet : String) (now : ℕ) (rows : B.Rows) (k : String × Asset) (l : ℕ)
      → Discrete (String × Asset)
      → IsIndexed k l rows
      → IsIndexed k l (upsert_native_zero B wallet now rows)
  unfolding upsert_native_zero
  zero-IsIndexed wallet now rows k l dec r = go (B.find rows (wallet, native_asset)) refl
    where
      go :
          (o : Option WalletBalance)
          → B.find rows (wallet, native_asset) ≡ o
          → IsIndexed k l (zero_at B o wallet now rows)
      go none e =
          put-IsIndexed rows (new_zero wallet now) k l dec
            (λ p. absurd (missing rows (wallet, native_asset) k l e r p)) r
      go (some b) e =
          put-IsIndexed rows (zeroed now b) k l dec
            (stored-Reaches rows (wallet, native_asset) k b l e r) r

  failed-IsIndexed :
      (wallet : String) (now : ℕ) (rows : B.Rows) (k : String × Asset) (l : ℕ)
      → IsIndexed k l rows
      → IsIndexed k l (mark_failed B wallet now rows)
  unfolding mark_failed
  failed-IsIndexed wallet now rows k l r =
      subst (RowReaches l)
        (sym (
          B.find-update_many rows (λ b. str_eq b.wallet_id wallet) (marked_failed now) k
            (λ b. refl)))
        (go (B.find rows k) r)
    where
      go :
          (o : Option WalletBalance)
          → RowReaches l o
          → RowReaches l (change_row (λ b. str_eq b.wallet_id wallet) (marked_failed now) o)
      go none r = r
      go (some b) r = elim (Bool-cases (str_eq b.wallet_id wallet)) [
        | inl t ↦ rw (t, change_row) r
        | inr t ↦ rw (t, change_row) r
      ]

  apply-IsIndexed :
      (wallet : String) (u : BalanceUpdate) (now : ℕ) (s : State B) (k : String × Asset) (l : ℕ)
      → Discrete (String × Asset)
      → IsIndexed k l s.rows
      → IsIndexed k l (apply_balance_update B wallet u false now s).0.rows
  unfolding apply_balance_update
  apply-IsIndexed wallet u now s k l dec r =
      elim (Bool-cases (is_older u.ledger_sequence (B.find s.rows (wallet, u.asset)))) [
        | inl old ↦ rw old r
        | inr fresh ↦ rw fresh (upsert-IsIndexed wallet u now s.rows k l dec fresh r)
      ]

  all-IsIndexed :
      (wallet : String) (us : List BalanceUpdate) (now : ℕ) (s : State B) (k : String × Asset)
      (l : ℕ)
      → Discrete (String × Asset)
      → IsIndexed k l s.rows
      → IsIndexed k l (apply_all B wallet false now us s).0.rows
  unfolding apply_all
  all-IsIndexed wallet [] now s k l dec r = r
  all-IsIndexed wallet (u ∷ us) now s k l dec r =
      all-IsIndexed wallet us now (apply_balance_update B wallet u false now s).0 k l dec
        (apply-IsIndexed wallet u now s k l dec r)

  orb_false : (a b : Bool) → (a || b) ≡ false → b ≡ false
  orb_false a b e = ground arith

  step-IsIndexed :
      (s : State B) (q : Request) (k : String × Asset) (l : ℕ)
      → Discrete (String × Asset)
      → IsIndexed k l s.rows
      → IsIndexed k l (step s q).rows
  unfolding step sync_wallet_balances
  step-IsIndexed s (indexes e now) k l dec r = elim (index_cases B e now s) [
    | inl (skipped, same) ↦ subst (λ (t : State B). IsIndexed k l t.rows) (sym same) r
    | inr (fresh, same) ↦
        subst (λ (t : State B). IsIndexed k l t.rows) (sym same)
          (upsert-IsIndexed e.wallet_id (update_of B e now) now s.rows k l dec (orb_false _ _ fresh)
            r)
  ]
  step-IsIndexed s (syncs wallet unknown_wallet now) k l dec r =
      failed-IsIndexed wallet now s.rows k l r
  step-IsIndexed s (syncs wallet (unreachable b) now) k l dec r =
      failed-IsIndexed wallet now s.rows k l r
  step-IsIndexed s (syncs wallet not_on_chain now) k l dec r =
      zero-IsIndexed wallet now s.rows k l dec r
  step-IsIndexed s (syncs wallet (holds us) now) k l dec r = all-IsIndexed wallet us now s k l dec r
  step-IsIndexed s (syncs wallet (breaks_after_zero b) now) k l dec r =
      failed-IsIndexed wallet now (upsert_native_zero B wallet now s.rows) k l
        (zero-IsIndexed wallet now s.rows k l dec r)
  step-IsIndexed s (syncs wallet (breaks_after us b) now) k l dec r =
      failed-IsIndexed wallet now (apply_all B wallet false now us s).0.rows k l
        (all-IsIndexed wallet us now s k l dec r)

  -- Whatever events are indexed, in whatever order, and whatever wallets are synchronised without a
  -- forced refresh, with whatever answers of Horizon, a balance that is indexed as of a ledger stays
  -- indexed as of that ledger or a later one.
  pub run-IsIndexed :
      (s : State B) (qs : List Request) (k : String × Asset) (l : ℕ)
      → Discrete (String × Asset)
      → IsIndexed k l s.rows
      → IsIndexed k l (run s qs).rows
  unfolding run
  run-IsIndexed s [] k l dec r = r
  run-IsIndexed s (q ∷ qs) k l dec r =
      run-IsIndexed (step s q) qs k l dec (step-IsIndexed s q k l dec r)
