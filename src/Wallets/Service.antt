-- ===== src/Wallets/Service.antt =====
-- src/wallets/wallets.service.ts. The key material, the decryption, the signature, the transactions
-- that are counted, the clock, the identifier of a new row and the failure of a write are arguments.
-- The event of a change is listed when it is handed to the webhooks; metrics and log lines are left
-- out. The network preference of a user and the pages of wallets are not modelled.
pub mod Deletion
pub mod Keys
pub mod Retirement
pub mod Updates
use mux_backend.Prelude.{
  ℕ, ◌+◌, String, Bool, true, false, not, ◌&&◌, ◌||◌, Option, none, some, List, [], ◌∷◌, ◌++◌, ltb,
  if◌then◌else◌, str_eq,
}
use mux_backend.Prelude.Http.{
  not_found, conflict, key_decryption_failed, internal_error, Result, ok, throw, Handler, return,
  fail, or_throw,
}
use mux_backend.Prelude.Rows.{RowTable}
use mux_backend.Transactions.Model.{Transaction, TransactionStatus, pending, submitted}
use mux_backend.Wallets.Model.{
  Wallet, WalletNetwork, WalletStatus, active, archived, suspended, same_status,
  can_transition_wallet_status,
}
use mux_backend.Wallets.Creation.{KeyMaterial, wallet_id, is_of, is_provisioning}
use mux_backend.Wallets.Rows.{has_public_key, insert_wallet, is_some}
use mux_backend.KeyManagement.Rotation as rotation
use mux_backend.KeyManagement.Rotation.{RotateKeyResult, rotate_key}

-- A wallet without its encrypted secret.
pub record PublicWallet : Type 0 where
  pub id : String
  pub user_id : String
  pub public_key : String
  pub nickname : Option String
  pub encryption_version : ℕ
  pub secret_version : ℕ
  pub key_version : ℕ
  pub network : WalletNetwork
  pub status : WalletStatus
  pub status_reason : Option String
  pub status_changed_at : ℕ
  pub rotated_from_id : Option String
  pub successor_id : Option String
  pub created_at : ℕ
  pub updated_at : ℕ

pub record CreateWalletRequest : Type 0 where
  pub user_id : String
  pub network : WalletNetwork

pub record WalletCreationResult : Type 0 where
  pub wallet : Wallet
  pub private_key : String

pub record WalletKeyRotationResult : Type 0 where
  pub predecessor : PublicWallet
  pub successor : PublicWallet

pub record WalletStatusResponse : Type 0 where
  pub id : String
  pub status : WalletStatus
  pub status_reason : Option String
  pub status_changed_at : ℕ
  pub network : WalletNetwork
  pub public_key : String
  pub user_id : String
  pub updated_at : ℕ

pub data DomainEvent : Type 0 where
  created rotated activated : Wallet → DomainEvent
  suspended_for : Wallet → Option String → DomainEvent

pub record Environment : Type 0 where
  pub generated : Option KeyMaterial
  pub decrypt : String → Result String
  pub sign : String → String → Option String
  pub write_fails : Bool
  pub new_id : String
  pub now : ℕ

abbrev pub to_public_wallet : Wallet → PublicWallet
to_public_wallet w = record {
  id = w.id;
  user_id = w.user_id;
  public_key = w.public_key;
  nickname = w.nickname;
  encryption_version = w.encryption_version;
  secret_version = w.secret_version;
  key_version = w.key_version;
  network = w.network;
  status = w.status;
  status_reason = w.status_reason;
  status_changed_at = w.status_changed_at;
  rotated_from_id = w.rotated_from_id;
  successor_id = w.successor_id;
  created_at = w.created_at;
  updated_at = w.updated_at;
}

abbrev pub new_wallet : CreateWalletRequest → KeyMaterial → Environment → Wallet
new_wallet q key env = record {
  id = env.new_id;
  user_id = q.user_id;
  public_key = key.public_key;
  nickname = none;
  encrypted_secret = key.encrypted_data;
  encryption_version = key.encryption_version;
  secret_version = 1;
  key_version = 1;
  network = q.network;
  status = active;
  status_reason = none;
  status_changed_at = env.now;
  rotated_from_id = none;
  successor_id = none;
  created_at = env.now;
  updated_at = env.now;
}

-- The data of the updates; an absent reason leaves the column as it is.
abbrev pub reason_column : Option String → Option String → Option String
reason_column old none = old
reason_column old (some r) = some r

abbrev pub with_status : WalletStatus → Option String → ℕ → Wallet → Wallet
with_status status reason now w = record w {
  status = status;
  status_reason = reason_column w.status_reason reason;
  status_changed_at = now;
  updated_at = now;
}

abbrev pub with_nickname : Option String → ℕ → Wallet → Wallet
with_nickname nickname now w = record w { nickname = nickname; updated_at = now }

-- `reason ?? text`
abbrev pub or_text : Option String → String → Option String
or_text none text = some text
or_text (some r) text = some r

abbrev pub is_active : WalletStatus → Bool
is_active active = true
is_active _ = false

abbrev pub is_suspended : WalletStatus → Bool
is_suspended suspended = true
is_suspended _ = false

-- `status: { in: [PENDING, SUBMITTED] }`
abbrev pub is_in_flight : TransactionStatus → Bool
is_in_flight pending = true
is_in_flight submitted = true
is_in_flight _ = false

abbrev pub is_receiver : String → Option String → Bool
is_receiver id none = false
is_receiver id (some r) = str_eq r id

-- `OR: [{ senderWalletId: id }, { receiverWalletId: id }]` with the status above.
abbrev pub blocks : String → Transaction → Bool
blocks id t =
    (str_eq t.sender_wallet_id id || is_receiver id t.receiver_wallet_id) && is_in_flight t.status

unfoldable pub pending_transaction_count : String → List Transaction → ℕ
pending_transaction_count id [] = 0
pending_transaction_count id (t ∷ ts) =
    let rest = pending_transaction_count id ts in if blocks id t then rest + 1 else rest

module _ (W : RowTable String Wallet wallet_id) where
  pub record State : Type 0 where
    pub wallets : W.Rows
    pub events : List DomainEvent

  -- A row that is written, with its event if there is one.
  abbrev pub stored : State → W.Rows → List DomainEvent → State
  stored s rows new = record { wallets = rows; events = new ++ s.events }

  -- A violation of a unique constraint is a conflict only for the public key.
  abbrev pub create_row :
      CreateWalletRequest
      → Environment
      → KeyMaterial
      → String
      → State
      → Option W.Rows
      → State × Result WalletCreationResult
  create_row q env key secret s none = (
    s,
    throw (
        if is_some (W.find_first s.wallets (has_public_key q.network key.public_key))
        then conflict
        else internal_error),
  )
  create_row q env key secret s (some rows) =
      let w = new_wallet q key env in
      (stored s rows (created w ∷ []), ok (record { wallet = w; private_key = secret }))

  abbrev pub create_decrypted :
      CreateWalletRequest
      → Environment
      → KeyMaterial
      → Result String
      → Handler State WalletCreationResult
  create_decrypted q env key (throw e) s = (s, throw internal_error)
  create_decrypted q env key (ok secret) s =
      if env.write_fails
      then (s, throw internal_error)
      else create_row q env key secret s (insert_wallet W (new_wallet q key env) s.wallets)

  abbrev pub create_with :
      CreateWalletRequest → Environment → Option KeyMaterial → Handler State WalletCreationResult
  create_with q env none s = (s, throw internal_error)
  create_with q env (some key) s = create_decrypted q env key (env.decrypt key.encrypted_data) s

  unfoldable pub create_wallet :
      CreateWalletRequest → Environment → Handler State WalletCreationResult
  create_wallet q env s =
      if is_some (W.find_first s.wallets (is_of q.user_id q.network))
      then (s, throw conflict)
      else create_with q env env.generated s

  unfoldable pub find_wallet_by_id : String → Handler State Wallet
  find_wallet_by_id id s = or_throw (W.find s.wallets id) not_found s

  abbrev pub public_of : Option Wallet → Handler State PublicWallet
  public_of none = fail not_found
  public_of (some w) = return (to_public_wallet w)

  unfoldable pub find_by_public_key : String → WalletNetwork → Handler State PublicWallet
  find_by_public_key key network s =
      public_of (W.find_first s.wallets (has_public_key network key)) s

  unfoldable pub is_public_key_taken : String → WalletNetwork → State → Bool
  is_public_key_taken key network s = is_some (W.find_first s.wallets (has_public_key network key))

  unfoldable pub find_wallet_by_user : String → WalletNetwork → Handler State Wallet
  find_wallet_by_user user network s =
      or_throw (W.find_first s.wallets (is_of user network)) not_found s

  -- A DecryptionError is passed on as a KeyDecryptionException.
  abbrev pub decrypted : Result String → Result String
  decrypted (ok secret) = ok secret
  decrypted (throw key_decryption_failed) = throw key_decryption_failed
  decrypted (throw e) = throw internal_error

  abbrev pub secret_of : Environment → Option Wallet → Handler State String
  secret_of env none s = (s, throw not_found)
  secret_of env (some w) s =
      if not (is_active w.status)
      then (s, throw internal_error)
      else (s, decrypted (env.decrypt w.encrypted_secret))

  unfoldable pub get_decrypted_private_key : String → Environment → Handler State String
  get_decrypted_private_key id env s = secret_of env (W.find s.wallets id) s

  -- Every failure is reported as a failed signature.
  abbrev pub signed : Environment → String → State × Result String → State × Result String
  signed env text (s, throw e) = (s, throw internal_error)
  signed env text (s, ok key) = or_throw (env.sign key text) internal_error s

  unfoldable pub sign_transaction : String → String → Environment → Handler State String
  sign_transaction id text env s = signed env text (get_decrypted_private_key id env s)

  abbrev pub rotation_read :
      State → W.Rows → Option Wallet → Option Wallet → State × Result WalletKeyRotationResult
  rotation_read s rows (some p) (some n) = (
    stored s rows (rotated n ∷ []),
    ok (record { predecessor = to_public_wallet p; successor = to_public_wallet n }),
  )
  rotation_read s rows p n = (record s { wallets = rows }, throw internal_error)

  abbrev pub after_rotation :
      State → W.Rows × Result RotateKeyResult → State × Result WalletKeyRotationResult
  after_rotation s (rows, throw not_found) = (record s { wallets = rows }, throw not_found)
  after_rotation s (rows, throw e) = (record s { wallets = rows }, throw internal_error)
  after_rotation s (rows, ok r) =
      rotation_read s rows (W.find rows r.predecessor_wallet_id) (W.find rows r.successor_wallet_id)

  abbrev pub rotate_existing :
      String → rotation.Environment → Option Wallet → Handler State WalletKeyRotationResult
  rotate_existing id env none s = (s, throw not_found)
  rotate_existing id env (some w) s = after_rotation s (rotate_key W id env s.wallets)

  unfoldable pub rotate_wallet_key :
      String → rotation.Environment → Handler State WalletKeyRotationResult
  rotate_wallet_key id env s = rotate_existing id env (W.find s.wallets id) s

  abbrev pub update_found :
      WalletStatus → Option String → Environment → Option Wallet → Handler State Wallet
  update_found status reason env none s = (s, throw not_found)
  update_found status reason env (some w) s =
      if not (same_status w.status status) && not (can_transition_wallet_status w.status status)
      then (s, throw conflict)
      else (if env.write_fails then (s, throw internal_error) else (
        stored s (W.put s.wallets (with_status status reason env.now w)) (
            if is_suspended status
            then suspended_for (with_status status reason env.now w) reason ∷ []
            else []),
        ok (with_status status reason env.now w),
      ))

  unfoldable pub update_wallet_status :
      String → WalletStatus → Option String → Environment → Handler State Wallet
  update_wallet_status id status reason env s =
      update_found status reason env (W.find s.wallets id) s

  abbrev pub status_response : Wallet → WalletStatusResponse
  status_response w = record {
    id = w.id;
    status = w.status;
    status_reason = w.status_reason;
    status_changed_at = w.status_changed_at;
    network = w.network;
    public_key = w.public_key;
    user_id = w.user_id;
    updated_at = w.updated_at;
  }

  abbrev pub status_of : Option Wallet → Handler State WalletStatusResponse
  status_of none = fail not_found
  status_of (some w) = return (status_response w)

  unfoldable pub get_wallet_status : String → Handler State WalletStatusResponse
  get_wallet_status id s = status_of (W.find s.wallets id) s

  abbrev pub activate_found : Option String → Environment → Option Wallet → Handler State Wallet
  activate_found reason env none s = (s, throw not_found)
  activate_found reason env (some w) s =
      let new = with_status active (or_text reason "Wallet provisioned and activated") env.now w in
      if not (is_provisioning w.status)
      then (s, throw internal_error)
      else (if env.write_fails
          then (s, throw internal_error)
          else (stored s (W.put s.wallets new) (activated new ∷ []), ok new))

  unfoldable pub activate_wallet : String → Option String → Environment → Handler State Wallet
  activate_wallet id reason env s = activate_found reason env (W.find s.wallets id) s

  abbrev pub nickname_found :
      Option String → Environment → Option Wallet → Handler State PublicWallet
  nickname_found nickname env none s = (s, throw not_found)
  nickname_found nickname env (some w) s =
      let new = with_nickname nickname env.now w in
      if env.write_fails
      then (s, throw internal_error)
      else (stored s (W.put s.wallets new) [], ok (to_public_wallet new))

  unfoldable pub update_nickname : String → Option String → Environment → Handler State PublicWallet
  update_nickname id nickname env s = nickname_found nickname env (W.find s.wallets id) s

  abbrev pub remove_found :
      String → List Transaction → Environment → Option Wallet → Handler State PublicWallet
  remove_found id transactions env none s = (s, throw not_found)
  remove_found id transactions env (some w) s =
      if ltb 0 (pending_transaction_count id transactions)
      then (s, throw conflict)
      else (if env.write_fails then (s, throw internal_error) else (
        record s { wallets = W.remove_many s.wallets (λ v. str_eq v.id id) },
        ok (to_public_wallet w),
      ))

  unfoldable pub remove : String → List Transaction → Environment → Handler State PublicWallet
  remove id transactions env s = remove_found id transactions env (W.find s.wallets id) s

  unfoldable pub archive_wallet : String → Option String → Environment → Handler State Wallet
  archive_wallet id reason env =
      update_wallet_status id archived (or_text reason "Wallet archived") env
