-- ===== src/Wallets/Creation.antt =====
-- src/wallets/wallet-creation-orchestrator.service.ts: the creation of a wallet in one transaction of
-- the database, with an idempotency record, and the cached lookup of a user's wallet. The generation
-- and decryption of keys and the search of the user are arguments, as are the calls of the database
-- that throw. Timings and log lines are left out, as is the funding of a testnet account, whose
-- outcome the code ignores. The cache key `wallet:user:${userId}:${network}` is the pair.
pub mod Effects
pub mod Unique
use mux_backend.Prelude.{
  ℕ, ◌+◌, String, Bool, true, false, not, ◌&&◌, Option, none, some, List, ◌∷◌, ltb, if◌then◌else◌,
  str_eq,
}
use mux_backend.Prelude.Rows.{RowTable}
use mux_backend.Common.Cache
use mux_backend.Common.Cache.{CacheMap}
use mux_backend.Wallets.Model.{
  Wallet, WalletNetwork, mainnet, testnet, WalletStatus, provisioning, active,
}

pub data OrchestrationPhase : Type 0 where
  key_generation wallet_persist wallet_activation : OrchestrationPhase

pub data OrchestrationOutcome : Type 0 where
  created existing idempotent : OrchestrationOutcome

-- What createWallet throws: NotFoundException, ConflictException or WalletOrchestrationError.
pub data Failure : Type 0 where
  user_not_found : Failure
  key_conflict : Failure
  orchestration_error : OrchestrationPhase → Failure

pub record CreateWalletRequest : Type 0 where
  pub user_id : String
  pub network : WalletNetwork
  pub idempotency_key : Option String

pub record OrchestrationResult : Type 0 where
  pub wallet : Wallet
  pub private_key : String
  pub is_new_wallet : Bool
  pub idempotency_key : Option String

-- The columns of an idempotency record that the code reads: its key, its expiry and the cached
-- response, which holds no private key.
pub record IdempotencyRecord : Type 0 where
  pub key : String
  pub expires_at : ℕ
  pub user_id : String
  pub network : WalletNetwork
  pub wallet : Wallet
  pub is_new_wallet : Bool

pub record KeyMaterial : Type 0 where
  pub public_key : String
  pub encrypted_data : String
  pub encryption_version : ℕ

-- What the other services answer, and which calls of the database throw. The identifier of a new
-- row is the database's.
pub record Environment : Type 0 where
  pub user_exists : String → Bool
  pub generate_key : Option KeyMaterial
  pub decrypt : String → Option String
  pub create_throws : Bool
  pub update_throws : Bool
  pub activate_throws : Bool
  pub store_throws : Bool
  pub new_id : String
  pub now : ℕ

pub data Outcome : Type 0 where
  returned : OrchestrationOutcome → OrchestrationResult → Outcome
  threw : Failure → Outcome

pub data WalletEvent : Type 0 where
  wallet_created wallet_activated : Wallet → WalletEvent

abbrev pub idempotency_ttl_ms : ℕ
idempotency_ttl_ms = 86400000

abbrev pub cache_ttl_ms : ℕ
cache_ttl_ms = 300000

abbrev pub same_network : WalletNetwork → WalletNetwork → Bool
same_network mainnet mainnet = true
same_network testnet testnet = true
same_network _ _ = false

-- `where: { userId, network }`
abbrev pub is_of : String → WalletNetwork → Wallet → Bool
is_of user network w = str_eq w.user_id user && same_network w.network network

abbrev pub wallet_id : Wallet → String
wallet_id w = w.id

abbrev pub record_key : IdempotencyRecord → String
record_key r = r.key

-- mapPrismaWalletToDomain: the successor and the nickname are not copied.
abbrev pub map_prisma_wallet_to_domain : Wallet → Wallet
map_prisma_wallet_to_domain w = record w { successor_id = none; nickname = none }

-- A string that is present and not empty is true.
abbrev pub truthy : Option String → Option String
truthy none = none
truthy (some k) = if str_eq k "" then none else some k

abbrev pub is_provisioning : WalletStatus → Bool
is_provisioning provisioning = true
is_provisioning _ = false

-- The row that is persisted.
abbrev pub provisioning_row : CreateWalletRequest → KeyMaterial → Environment → Wallet
provisioning_row q k env = record {
  id = env.new_id;
  user_id = q.user_id;
  public_key = k.public_key;
  nickname = none;
  encrypted_secret = k.encrypted_data;
  encryption_version = k.encryption_version;
  secret_version = 1;
  key_version = 1;
  network = q.network;
  status = provisioning;
  status_reason = none;
  status_changed_at = env.now;
  rotated_from_id = none;
  successor_id = none;
  created_at = env.now;
  updated_at = env.now;
}

-- The update of createNewWallet, and that of activateWallet behind it.
abbrev pub activated_row : Environment → Wallet → Wallet
activated_row env w = record w {
  status = active;
  status_reason = some "Wallet provisioned and activated";
  status_changed_at = env.now;
  updated_at = env.now;
}

module _ (W : RowTable String Wallet wallet_id) (I : RowTable String IdempotencyRecord record_key)
    (same : Discrete (String × WalletNetwork)) where
  -- The tables that the transaction writes.
  pub record Db : Type 0 where
    pub wallets : W.Rows
    pub records : I.Rows

  pub record State : Type 0 where
    pub db : Db
    pub cache : CacheMap (String × WalletNetwork) Wallet
    pub events : List WalletEvent

  abbrev pub WalletCache : Type 0
  WalletCache = CacheMap (String × WalletNetwork) Wallet

  -- findExistingWallet and getWalletByUser: the cache before the table.
  abbrev found_in_table :
      String → WalletNetwork → ℕ → WalletCache → Option Wallet → Option Wallet × WalletCache
  found_in_table user network now cache none = (none, cache)
  found_in_table user network now cache (some w) =
      let m = map_prisma_wallet_to_domain w in
      (some m, Cache.set same (user, network) m cache_ttl_ms now cache)

  unfoldable pub find_existing_wallet :
      String → WalletNetwork → ℕ → W.Rows → WalletCache → Option Wallet × WalletCache
  find_existing_wallet user network now wallets cache =
      let (hit, cache') = Cache.get same (user, network) now cache in
      elim hit [
        | some w ↦ (some w, cache')
        | none ↦ found_in_table user network now cache' (W.find_first wallets (is_of user network))
      ]

  unfoldable pub get_wallet_by_user : String → WalletNetwork → ℕ → State → State × Option Wallet
  unfolding find_existing_wallet
  get_wallet_by_user user network now s =
      let (w, cache) = find_existing_wallet user network now s.db.wallets s.cache in
      (record s { cache = cache }, w)

  unfoldable pub validate_user_can_create_wallet : String → WalletNetwork → ℕ → State → State × Bool
  unfolding get_wallet_by_user
  validate_user_can_create_wallet user network now s =
      let (s', w) = get_wallet_by_user user network now s in
      (s', elim w [ none ↦ true | some _ ↦ false ])

  -- What checkIdempotency finds.
  pub data Check : Type 0 where
    absent conflicting : Check
    expired : Check
    replay : IdempotencyRecord → Check

  unfoldable pub check_idempotency : String → CreateWalletRequest → ℕ → I.Rows → Check
  check_idempotency key q now records = elim (I.find records key) [
    | none ↦ absent
    | some r ↦
        if ltb r.expires_at now
        then expired
        else (if str_eq r.user_id q.user_id && same_network r.network q.network
            then replay r
            else conflicting)
  ]

  abbrev pub idempotency_record :
      String → CreateWalletRequest → OrchestrationResult → ℕ → IdempotencyRecord
  idempotency_record key q result now = record {
    key = key;
    expires_at = now + idempotency_ttl_ms;
    user_id = q.user_id;
    network = q.network;
    wallet = result.wallet;
    is_new_wallet = result.is_new_wallet;
  }

  -- storeIdempotencyRecord: a failure, or a record that is already there, is only logged.
  abbrev pub store_idempotency_record :
      Option String → CreateWalletRequest → OrchestrationResult → Environment → Db → Db
  store_idempotency_record none q result env db = db
  store_idempotency_record (some key) q result env db = elim (I.find db.records key) [
    | some r ↦ db
    | none ↦
        if env.store_throws
        then db
        else record db { records = I.put db.records (idempotency_record key q result env.now) }
  ]

  abbrev pub new_result : CreateWalletRequest → Wallet → String → OrchestrationResult
  new_result q w secret = record {
    wallet = map_prisma_wallet_to_domain w;
    private_key = secret;
    is_new_wallet = true;
    idempotency_key = q.idempotency_key;
  }

  -- The writes, once the key is generated and decrypted; the Booleans say which of the three throws.
  abbrev pub persist :
      CreateWalletRequest
      → Environment
      → Db
      → KeyMaterial
      → String
      → Bool
      → Bool
      → Bool
      → Db × Outcome
  persist q env db k secret true u a = (db, threw (orchestration_error wallet_persist))
  persist q env db k secret false true a = (db, threw (orchestration_error wallet_activation))
  persist q env db k secret false false true = (db, threw (orchestration_error wallet_persist))
  persist q env db k secret false false false =
      let w = activated_row env (provisioning_row q k env) in
      let result = new_result q w secret in
      (
        store_idempotency_record (truthy q.idempotency_key) q result env
            (record db { wallets = W.put db.wallets w }),
        returned created result,
      )

  abbrev pub with_secret :
      CreateWalletRequest → Environment → Db → KeyMaterial → Option String → Db × Outcome
  with_secret q env db k none = (db, threw (orchestration_error key_generation))
  with_secret q env db k (some secret) =
      persist q env db k secret env.create_throws env.update_throws env.activate_throws

  abbrev pub with_key : CreateWalletRequest → Environment → Db → Option KeyMaterial → Db × Outcome
  with_key q env db none = (db, threw (orchestration_error key_generation))
  with_key q env db (some k) = with_secret q env db k (env.decrypt k.encrypted_data)

  unfoldable pub create_new_wallet : CreateWalletRequest → Environment → Db → Db × Outcome
  create_new_wallet q env db = with_key q env db env.generate_key

  -- The transaction behind the idempotency check.
  unfoldable pub after_check : CreateWalletRequest → Environment → Option Wallet → Db → Db × Outcome
  after_check q env (some w) db = (
    db,
    returned existing (record {
      wallet = w;
      private_key = "";
      is_new_wallet = false;
      idempotency_key = q.idempotency_key;
    }),
  )
  after_check q env none db = create_new_wallet q env db

  abbrev pub checked :
      CreateWalletRequest → Environment → Option Wallet → Db → String → Check → Db × Outcome
  checked q env w db key absent = after_check q env w db
  checked q env w db key expired =
      after_check q env w (record db { records = I.remove_many db.records (λ r. str_eq r.key key) })
  checked q env w db key conflicting = (db, threw key_conflict)
  checked q env w db key (replay r) = (
    db,
    returned idempotent (record {
      wallet = r.wallet;
      private_key = "";
      is_new_wallet = r.is_new_wallet;
      idempotency_key = some key;
    }),
  )

  unfoldable pub transaction : CreateWalletRequest → Environment → Option Wallet → Db → Db × Outcome
  transaction q env w db = elim (truthy q.idempotency_key) [
    | none ↦ after_check q env w db
    | some key ↦ checked q env w db key (check_idempotency key q env.now db.records)
  ]

  -- The transaction commits or is rolled back; a wallet that is new is announced after the commit.
  abbrev pub finish : State → WalletCache → Db × Outcome → State × Outcome
  finish s cache (db, threw e) = (record s { cache = cache }, threw e)
  finish s cache (db, returned created result) = (
    record s {
      db = db;
      cache = cache;
      events = wallet_activated result.wallet ∷ wallet_created result.wallet ∷ s.events;
    },
    returned created result,
  )
  finish s cache (db, returned o result) = (record s { db = db; cache = cache }, returned o result)

  unfoldable pub create_wallet : CreateWalletRequest → Environment → State → State × Outcome
  create_wallet q env s =
      if not (env.user_exists q.user_id)
      then (s, threw user_not_found)
      else (let (w, cache) =
            find_existing_wallet q.user_id q.network env.now s.db.wallets s.cache in
          finish s cache (transaction q env w s.db))

  -- cleanupStaleProvisioningWallets
  unfoldable pub cleanup_stale_provisioning_wallets : ℕ → ℕ → State → State
  cleanup_stale_provisioning_wallets older_than_ms now s = record s {
    db = record s.db {
      wallets =
          W.remove_many s.db.wallets
            (λ w. is_provisioning w.status && ltb (w.created_at + older_than_ms) now);
    };
  }
