-- ===== src/Wallets/Model.antt =====
-- src/wallets/domain/wallet.model.ts. A date is its number of milliseconds, so that `at` is an
-- argument of the functions that read the clock by default.
pub mod Lifecycle
use mux_backend.Prelude.{ℕ, String, Bool, true, false, Option, if◌then◌else◌}
use mux_backend.Prelude.Http.{internal_error, Result, ok, throw}

pub data WalletNetwork : Type 0 where
  mainnet testnet : WalletNetwork

pub data WalletStatus : Type 0 where
  provisioning active rotating suspended disabled compromised archived : WalletStatus

pub record Wallet : Type 0 where
  pub id : String
  pub user_id : String
  pub public_key : String
  pub nickname : Option String
  pub encrypted_secret : String
  pub encryption_version : ℕ
  pub secret_version : ℕ
  pub key_version : ℕ
  pub network : WalletNetwork
  pub status : WalletStatus
  pub status_reason : Option String
  pub status_changed_at : ℕ
  pub rotated_from_id : Option String
  pub successor_id : Option String
  pub created_at : ℕ
  pub updated_at : ℕ

-- ALLOWED_TRANSITIONS, row by row.
unfoldable pub can_transition_wallet_status : WalletStatus → WalletStatus → Bool
can_transition_wallet_status provisioning active = true
can_transition_wallet_status provisioning suspended = true
can_transition_wallet_status provisioning disabled = true
can_transition_wallet_status active rotating = true
can_transition_wallet_status active suspended = true
can_transition_wallet_status active disabled = true
can_transition_wallet_status active compromised = true
can_transition_wallet_status active archived = true
can_transition_wallet_status rotating active = true
can_transition_wallet_status rotating suspended = true
can_transition_wallet_status rotating disabled = true
can_transition_wallet_status rotating compromised = true
can_transition_wallet_status suspended active = true
can_transition_wallet_status suspended disabled = true
can_transition_wallet_status suspended compromised = true
can_transition_wallet_status suspended archived = true
can_transition_wallet_status disabled archived = true
can_transition_wallet_status _ _ = false

-- `===` on two members of the enum.
abbrev pub same_status : WalletStatus → WalletStatus → Bool
same_status provisioning provisioning = true
same_status active active = true
same_status rotating rotating = true
same_status suspended suspended = true
same_status disabled disabled = true
same_status compromised compromised = true
same_status archived archived = true
same_status _ _ = false

unfoldable pub transition_wallet_status : Wallet → WalletStatus → Option String → ℕ → Result Wallet
unfolding can_transition_wallet_status
transition_wallet_status w to reason at =
    if same_status w.status to
    then ok w
    else (if can_transition_wallet_status w.status to
        then ok (record w {
          status = to;
          status_reason = reason;
          status_changed_at = at;
          updated_at = at;
        })
        else throw internal_error)
