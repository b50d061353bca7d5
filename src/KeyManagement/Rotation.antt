-- ===== src/KeyManagement/Rotation.antt =====
-- src/key-management/key-management.service.ts, rotateKey: a successor of the wallet is stored with
-- fresh key material and linked. What the key provider and the encryption generate is an argument, and
-- so is whether this.requestContext and this.eventEmitter are there, which the code uses and its
-- constructor does not inject: the audits of generateKey and rotateKey throw without the first, the
-- event after the commit without the second. Metrics and log lines are left out.
pub mod Chain
use mux_backend.Prelude.{
  ℕ, ◌+◌, String, Bool, true, false, not, Option, none, some, if◌then◌else◌, str_eq,
}
use mux_backend.Prelude.Http.{not_found, internal_error, Result, ok, throw, Handler}
use mux_backend.Prelude.Rows.{RowTable}
use mux_backend.Wallets.Model.{Wallet, WalletStatus, active, rotating}
use mux_backend.Wallets.Creation.{KeyMaterial, wallet_id}
use mux_backend.Wallets.Rows.{insert_wallet}

pub record RotateKeyResult : Type 0 where
  pub successor_wallet_id : String
  pub successor_public_key : String
  pub successor_key_version : ℕ
  pub predecessor_wallet_id : String

pub record Environment : Type 0 where
  pub generated : Option KeyMaterial
  pub has_request_context : Bool
  pub has_event_emitter : Bool
  pub new_id : String
  pub now : ℕ

-- `['ACTIVE', 'ROTATING'].includes(status)`
abbrev pub is_rotatable : WalletStatus → Bool
is_rotatable active = true
is_rotatable rotating = true
is_rotatable _ = false

abbrev pub has_successor : Option String → Bool
has_successor none = false
has_successor (some id) = not (str_eq id "")

-- generateKey returns key version 1.
abbrev pub successor_row : Environment → KeyMaterial → Wallet → Wallet
successor_row env key p = record {
  id = env.new_id;
  user_id = p.user_id;
  public_key = key.public_key;
  nickname = none;
  encrypted_secret = key.encrypted_data;
  encryption_version = key.encryption_version;
  secret_version = p.secret_version + 1;
  key_version = 1;
  network = p.network;
  status = active;
  status_reason = none;
  status_changed_at = env.now;
  rotated_from_id = some p.id;
  successor_id = none;
  created_at = env.now;
  updated_at = env.now;
}

abbrev pub predecessor_row : Environment → Wallet → Wallet
predecessor_row env p = record p {
  successor_id = some env.new_id;
  status = rotating;
  status_reason = some "Key rotation initiated";
  status_changed_at = env.now;
  updated_at = env.now;
}

abbrev pub rotation_result : Environment → KeyMaterial → Wallet → RotateKeyResult
rotation_result env key p = record {
  successor_wallet_id = env.new_id;
  successor_public_key = key.public_key;
  successor_key_version = 1;
  predecessor_wallet_id = p.id;
}

-- generateKey: its audit throws without a request context, in its handler of errors as well.
abbrev pub generate_key : Environment → Option KeyMaterial
generate_key env = if env.has_request_context then env.generated else none

module _ (W : RowTable String Wallet wallet_id) where
  -- The transaction, and what follows its commit.
  abbrev pub commit :
      Environment → KeyMaterial → Wallet → W.Rows → Option W.Rows → W.Rows × Result RotateKeyResult
  commit env key p rows none = (rows, throw internal_error)
  commit env key p rows (some rows') = (
    W.put rows' (predecessor_row env p),
    (if env.has_event_emitter then ok (rotation_result env key p) else throw internal_error),
  )

  abbrev pub with_generated :
      Environment → Option KeyMaterial → Wallet → Handler W.Rows RotateKeyResult
  with_generated env none p rows = (rows, throw internal_error)
  with_generated env (some key) p rows =
      commit env key p rows (insert_wallet W (successor_row env key p) rows)

  abbrev pub rotate_found : Environment → Option Wallet → Handler W.Rows RotateKeyResult
  rotate_found env none rows = (rows, throw not_found)
  rotate_found env (some p) rows =
      if not (is_rotatable p.status)
      then (rows, throw internal_error)
      else (if has_successor p.successor_id
          then (rows, throw internal_error)
          else with_generated env (generate_key env) p rows)

  unfoldable pub rotate_key : String → Environment → Handler W.Rows RotateKeyResult
  rotate_key id env rows = rotate_found env (W.find rows id) rows
