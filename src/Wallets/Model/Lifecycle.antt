-- ===== src/Wallets/Model/Lifecycle.antt =====
-- Sequences of status changes of one wallet (wallet.model.ts). A change that throws leaves the
-- wallet as it is.
use mux_backend.Prelude.{
  ℕ, suc, ◌≤◌, String, ◌≡◌, ◌↔◌, ◌⊎◌, Bool, true, false, Option, List, [], ◌∷◌, arith,
  if◌then◌else◌,
}
use mux_backend.Prelude.Http.{Result, ok, throw, is_ok}
use mux_backend.Wallets.Model.{
  WalletStatus, disabled, compromised, archived, Wallet, same_status, can_transition_wallet_status,
  transition_wallet_status,
}

pub record Change : Type 0 where
  pub to : WalletStatus
  pub reason : Option String
  pub at : ℕ

abbrev after : Wallet → Result Wallet → Wallet
after w (ok u) = u
after w (throw e) = w

pub apply : Wallet → Change → Wallet
apply w c = after w (transition_wallet_status w c.to c.reason c.at)

pub run : Wallet → List Change → Wallet
run w [] = w
run w (c ∷ cs) = run (apply w c) cs

-- How many of the changes altered the status.
pub changes : Wallet → List Change → ℕ
changes w [] = 0
changes w (c ∷ cs) =
    let rest = changes (apply w c) cs in
    if same_status w.status (apply w c).status then rest else suc rest

-- The statuses that no change leads out of except into the archive.
abbrev pub retired : WalletStatus → Bool
retired disabled = true
retired compromised = true
retired archived = true
retired _ = false

-- A status that has no change left.
abbrev pub changes_left : WalletStatus → ℕ
changes_left disabled = 1
changes_left _ = 0

retired-apply :
    (w : Wallet) (c : Change)
    → retired w.status ≡ true
    → (retired (apply w c).status ≡ true)
      × ((same_status w.status (apply w c).status ≡ true)
            × (changes_left (apply w c).status ≡ changes_left w.status)
          ⊎ ((same_status w.status (apply w c).status ≡ false)
              × (suc (changes_left (apply w c).status) ≤ changes_left w.status)))
unfolding apply transition_wallet_status can_transition_wallet_status
retired-apply w c h = ground arith

-- Whatever changes are asked for, a wallet that is disabled, compromised or archived stays one of
-- these, so that it is never active, rotating or suspended again.
run-retired :
    (w : Wallet) (cs : List Change) → retired w.status ≡ true → retired (run w cs).status ≡ true
unfolding run
run-retired w [] h = h
run-retired w (c ∷ cs) h = run-retired (apply w c) cs (retired-apply w c h).0

-- Whatever changes are asked for, a compromised or archived wallet never changes status again, and a
-- disabled one does so at most once.
changes-le_left :
    (w : Wallet) (cs : List Change) → retired w.status ≡ true → changes w cs ≤ changes_left w.status
unfolding changes
changes-le_left w [] h = omega arith
changes-le_left w (c ∷ cs) h =
    ground (arith, retired-apply w c h, changes-le_left (apply w c) cs (retired-apply w c h).0)

-- What a status change never touches.
pub record SameKeys (w u : Wallet) : Type 0 where
  pub id : u.id ≡ w.id
  pub user_id : u.user_id ≡ w.user_id
  pub public_key : u.public_key ≡ w.public_key
  pub encrypted_secret : u.encrypted_secret ≡ w.encrypted_secret
  pub secret_version : u.secret_version ≡ w.secret_version
  pub network : u.network ≡ w.network
  pub rotated_from_id : u.rotated_from_id ≡ w.rotated_from_id
  pub successor_id : u.successor_id ≡ w.successor_id

-- A status change succeeds exactly when the status is already the wanted one or the table of
-- transitions allows it. A success ends in the wanted status and changes neither the owner, the key
-- material, the network nor the rotation lineage of the wallet.
transition-outcome :
    (w : Wallet) (to : WalletStatus) (reason : Option String) (at : ℕ)
    → ((is_ok (transition_wallet_status w to reason at) ≡ true)
        ↔ ((w.status ≡ to) ⊎ (can_transition_wallet_status w.status to ≡ true)))
      × ((u : Wallet)
          → transition_wallet_status w to reason at ≡ ok u
          → (u.status ≡ to) × SameKeys w u)
unfolding transition_wallet_status
transition-outcome w to reason at = ((λ e. ground arith, λ e. ground arith), λ u e. ground arith)
