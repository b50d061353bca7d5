-- ===== src/BalanceIndexer/Sync/Retries.antt =====
-- The retries of a synchronisation end (balance-indexer.service.ts).
use mux_backend.Prelude.{
  ℕ, zero, suc, ◌+◌, ◌≤◌, String, ◌≡◌, refl, subst, ◌⊎◌, inl, inr, Bool, false, ◌||◌, Option, some,
  arith, leb, Bool-cases,
}
use mux_backend.Prelude.Http.{Result, ok, throw}
use mux_backend.Prelude.Rows.{RowTable}
use mux_backend.BalanceIndexer.Index.{Asset, WalletBalance, balance_key, State}
use mux_backend.BalanceIndexer.Sync.{
  Account, SyncBalancesResult, is_client_error, sync_wallet_balances, settle, sync_with_retry,
}

suc_add : (a b : ℕ) → suc (a + b) ≡ suc a + b
suc_add a b = omega arith

module _ (B : RowTable (String × Asset) WalletBalance balance_key) where
  abbrev Out : Type 0
  Out = State B × Result SyncBalancesResult

  settled :
      (max_retries attempt : ℕ) (rest : ℕ → State B → Option Out) (x : Out)
      → (max_retries ≤ attempt)
        ⊎ ((s : State B) → (out : Out) × ((more : ℕ) → rest more s ≡ some out))
      → (out : Out) × ((more : ℕ) → settle B max_retries attempt x (rest more x.0) ≡ some out)
  settled max_retries attempt rest (s, ok a) h = ((s, ok a), λ more. refl)
  settled max_retries attempt rest (s, throw c) h =
      elim (Bool-cases (is_client_error c || leb max_retries attempt)) [
        | inl stop ↦ ((s, throw c), λ more. rw stop refl)
        | inr again ↦ elim h [
          | inl late ↦ absurd (refused again late)
          | inr ends ↦ let (out, f) = ends s in (out, λ more. rw again (f more))
        ]
      ]
    where
      refused : (is_client_error c || leb max_retries attempt) ≡ false → max_retries ≤ attempt → ⊥
      refused a l = ground arith

  -- The retries end: fuel for one attempt more than the retries that are left is enough, and more
  -- fuel gives the same outcome, whatever Horizon answers to the attempts.
  pub sync_with_retry-ends :
      (left max_retries : ℕ) (wallet : String) (force : Bool) (account : ℕ → Account)
      (attempt now : ℕ) (s : State B)
      → max_retries ≤ attempt + left
      → (out : State B × Result SyncBalancesResult) × ((more : ℕ)
          → sync_with_retry B (suc (left + more)) max_retries wallet force account attempt now s
            ≡ some out)
  unfolding sync_with_retry
  sync_with_retry-ends zero max_retries wallet force account attempt now s h =
      settled max_retries attempt
        (λ more s'.
          sync_with_retry B (0 + more) max_retries wallet force account (attempt + 1) now s')
        (sync_wallet_balances B wallet force (account attempt) now s) (inl (omega arith))
  sync_with_retry-ends (suc left) max_retries wallet force account attempt now s h =
      settled max_retries attempt
        (λ more s'.
          sync_with_retry B (suc left + more) max_retries wallet force account (attempt + 1) now s')
        (sync_wallet_balances B wallet force (account attempt) now s)
        (inr (λ s'.
          let (out, ends) =
            sync_with_retry-ends left max_retries wallet force account (attempt + 1) now s'
              (omega arith) in
          (
            out,
            λ more.
                subst
                  (λ n.
                    sync_with_retry B n max_retries wallet force account (attempt + 1) now s'
                    ≡ some out)
                  (suc_add left more) (ends more),
          )))
