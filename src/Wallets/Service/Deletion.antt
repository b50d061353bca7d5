-- ===== src/Wallets/Service/Deletion.antt =====
-- When a wallet is deleted (wallets.service.ts).
use mux_backend.Prelude.{String, ◌≡◌, ◌≢◌, ◌⊎◌, Bool, true, Option, none, some, List, [], ◌∷◌}
use mux_backend.Prelude.Http.{Result, ok, throw}
use mux_backend.Prelude.Rows.{RowTable}
use mux_backend.Transactions.Model.{Transaction, pending, submitted}
use mux_backend.Wallets.Model.{Wallet}
use mux_backend.Wallets.Creation.{wallet_id}
use mux_backend.Wallets.Service.{State, PublicWallet, to_public_wallet}

-- Neither pending nor submitted.
abbrev pub IsOver : Transaction → Type 0
IsOver t = (t.status ≢ pending) × (t.status ≢ submitted)

-- The wallet is the sender or the receiver.
abbrev pub Involves : String → Transaction → Type 0
Involves id t = (t.sender_wallet_id ≡ id) ⊎ (t.receiver_wallet_id ≡ some id)

-- Each transaction that the wallet sends or receives is over.
abbrev pub IsSettled : String → List Transaction → Type 0
IsSettled id [] = Unit
IsSettled id (t ∷ ts) = (Involves id t → IsOver t) × IsSettled id ts

module _ (W : RowTable String Wallet wallet_id) where
  -- What a deletion promises, by its outcome.
  abbrev pub Removed :
      String → List Transaction → Bool → State W → State W × Result PublicWallet → Type 0
  Removed id ts fails s (s', throw e) =
      (s' ≡ s) × ((W.find s.wallets id ≡ none) ⊎ ¬ IsSettled id ts ⊎ (fails ≡ true))
  Removed id ts fails s (s', ok p) =
      (w : Wallet) × (W.find s.wallets id ≡ some w)
      × (p ≡ to_public_wallet w)
      × (p.id ≡ id)
      × IsSettled id ts
      × (W.find s'.wallets id ≡ none)
      × (s'.events ≡ s.events)
      × ((j : String) → j ≢ id → W.find s'.wallets j ≡ W.find s.wallets j)

  none-some : {w : Wallet} → ◌≡◌ {A = Option Wallet} none (some w) → ⊥
  none-some e = cc
