-- ===== src/Recovery/Service.antt =====
-- src/recovery/recovery.service.ts and src/recovery/admin-recovery.service.ts. The queries that look
-- for an active request or a wallet, and the rotation of a wallet's key, are arguments; the dates and
-- identifiers are the database's. `metadata` is its JSON text.
pub mod Changes
pub mod Admin
use mux_backend.Prelude.{ℕ, String, Bool, true, false, not, Option, none, some, if◌then◌else◌}
use mux_backend.Prelude.Http.{
  bad_request, not_found, internal_error, Result, ok, throw, Handler, ◌>>=◌, ◌>>◌, return, fail,
  or_throw, guard,
}
use mux_backend.Prelude.Table.{Table}
use mux_backend.Prelude.Rows.{RowTable}
use mux_backend.Wallets.Model.{Wallet}
use mux_backend.Wallets.Creation.{wallet_id}
use mux_backend.Wallets.Service as wallets
use mux_backend.Wallets.Service.{WalletKeyRotationResult, rotate_wallet_key}
use mux_backend.KeyManagement.Rotation as rotation
use mux_backend.Recovery.Model.{
  RecoveryStatus, pending, in_review, approved, rejected, completed, cancelled, RecoveryRequest,
  can_transition_recovery_status, same_status, transition_recovery_status,
}

pub record CreateRecoveryDto : Type 0 where
  pub wallet_id : String
  pub requester : String
  pub metadata : Option String

-- The statuses that the query for an active request leaves out.
abbrev pub is_active : RecoveryStatus → Bool
is_active rejected = false
is_active completed = false
is_active cancelled = false
is_active _ = true

module _ (T : Table String RecoveryRequest) where
  -- A row is read, or NotFoundException is thrown.
  unfoldable pub find_one : String → T.Rows → T.Rows × Result RecoveryRequest
  find_one id rows = or_throw (T.find rows id) not_found rows

  abbrev write_status :
      String → RecoveryRequest → RecoveryStatus → ℕ → Handler T.Rows RecoveryRequest
  write_status id r status now rows =
      let u : RecoveryRequest = record r { status = status; updated_at = now } in
      (T.put rows id u, ok u)

  abbrev pub new_request : CreateRecoveryDto → String → ℕ → RecoveryRequest
  new_request dto id now = record {
    id = id;
    wallet_id = dto.wallet_id;
    requester = dto.requester;
    status = pending;
    metadata = dto.metadata;
    created_at = now;
    updated_at = now;
  }

  -- `existing_active` is the request that the query for an active one of this wallet returns.
  unfoldable pub create :
      (existing_active : Option RecoveryRequest)
      → (wallet_found : Bool) → CreateRecoveryDto
      → String
      → ℕ
      → Handler T.Rows RecoveryRequest
  create existing_active wallet_found dto id now = do
    guard (elim existing_active [ none ↦ true | some r ↦ false ]) bad_request
    guard wallet_found bad_request
    λ rows. let r : RecoveryRequest = new_request dto id now in (T.put rows id r, ok r)

  abbrev write_transitioned :
      String → RecoveryRequest → ℕ → Result RecoveryRequest → Handler T.Rows RecoveryRequest
  write_transitioned id r now (ok u) = write_status id r u.status now
  write_transitioned id r now (throw e) = fail bad_request

  unfoldable pub update : String → Option RecoveryStatus → ℕ → Handler T.Rows RecoveryRequest
  unfolding find_one
  update id status now = do
    r ← find_one id
    elim status [
      | none ↦ return r
      | some to ↦ write_transitioned id r now (transition_recovery_status r to now)
    ]

  unfoldable pub initiate : String → ℕ → Handler T.Rows RecoveryRequest
  unfolding find_one
  initiate id now = do
    r ← find_one id
    guard (same_status r.status pending) bad_request
    write_transitioned id r now (transition_recovery_status r in_review now)

  unfoldable pub cancel : String → ℕ → Handler T.Rows RecoveryRequest
  unfolding find_one
  cancel id now = do
    r ← find_one id
    guard (can_transition_recovery_status r.status cancelled) bad_request
    write_status id r cancelled now

  unfoldable pub remove : String → Handler T.Rows (Unit {0})
  unfolding find_one
  remove id = do r ← find_one id; λ rows. (T.remove rows id, ok tt)

  -- AdminRecoveryService.rejectRecovery
  unfoldable pub reject_recovery :
      (metadata : Option String → Option String) → String → ℕ → Handler T.Rows RecoveryRequest
  unfolding find_one
  reject_recovery merge id now = do
    r ← find_one id
    guard (same_status r.status in_review) bad_request
    guard (can_transition_recovery_status r.status rejected) bad_request
    write_status id (record r { metadata = merge r.metadata }) rejected now

-- The requests, and what the service of the wallets keeps.
pub record AdminState (T : Table String RecoveryRequest) (W : RowTable String Wallet wallet_id)
    : Type 0 where
  pub requests : T.Rows
  pub wallets : wallets.State W

module _ (T : Table String RecoveryRequest) (W : RowTable String Wallet wallet_id) where
  -- The data of the update reads `rotation.wallet.publicKey`, but a rotation has the fields
  -- predecessor and successor: this is a TypeError, before the request is written.
  abbrev pub after_rotation :
      T.Rows
      → wallets.State W × Result WalletKeyRotationResult
      → AdminState T W × Result RecoveryRequest
  after_rotation rows (ws, throw e) = (record { requests = rows; wallets = ws }, throw e)
  after_rotation rows (ws, ok rotation) =
      (record { requests = rows; wallets = ws }, throw internal_error)

  abbrev pub approve_found :
      rotation.Environment → Option RecoveryRequest → Handler (AdminState T W) RecoveryRequest
  approve_found env none s = (s, throw not_found)
  approve_found env (some r) s =
      if not (same_status r.status in_review)
      then (s, throw bad_request)
      else (if not (can_transition_recovery_status r.status approved)
          then (s, throw bad_request)
          else after_rotation s.requests (rotate_wallet_key W r.wallet_id env s.wallets))

  -- AdminRecoveryService.approveRecovery: the key of the wallet is rotated first.
  unfoldable pub approve_recovery :
      String → rotation.Environment → Handler (AdminState T W) RecoveryRequest
  approve_recovery id env s = approve_found env (T.find s.requests id) s
