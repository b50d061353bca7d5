-- ===== src/Wallets/Creation/Effects.antt =====
-- The ways in which the creation of a wallet can end (wallet-creation-orchestrator.service.ts).
use mux_backend.Prelude.{
  String, ◌≡◌, refl, ap, ◌∙◌, inl, inr, Bool, true, false, Option, none, some, arith, ltb,
  Bool-cases, Option-cases, str_eq,
}
use mux_backend.Prelude.Rows.{RowTable}
use mux_backend.Wallets.Model.{Wallet, WalletNetwork}
use mux_backend.Wallets.Creation.{
  CreateWalletRequest, OrchestrationResult, IdempotencyRecord, KeyMaterial, Environment, Outcome,
  returned, threw, Failure, orchestration_error, key_conflict, created, existing, idempotent,
  key_generation, wallet_persist, wallet_activation, wallet_id, record_key, same_network, truthy,
  Db, check_idempotency, store_idempotency_record, new_result, persist, with_secret, with_key,
  create_new_wallet, after_check, checked, transaction, activated_row, provisioning_row,
}

module _ (W : RowTable String Wallet wallet_id) (I : RowTable String IdempotencyRecord record_key)
    (same : Discrete (String × WalletNetwork)) where
  -- What the transaction does, given the wallet that was found before.
  pub data TxEffect (q : CreateWalletRequest) (env : Environment) (w : Option Wallet)
      (db : Db W I same) : Db W I same × Outcome → Type 0 where
    fails : (db' : Db W I same) (e : Failure) → TxEffect q env w db (db', threw e)
    replays :
        (key : String) (r : IdempotencyRecord)
        → truthy q.idempotency_key ≡ some key
        → I.find db.records key ≡ some r
        → (ltb r.expires_at env.now ≡ false)
          × (str_eq r.user_id q.user_id ≡ true)
          × (same_network r.network q.network ≡ true)
        → TxEffect q env w db (
          db,
          returned idempotent (record {
            wallet = r.wallet;
            private_key = "";
            is_new_wallet = r.is_new_wallet;
            idempotency_key = some key;
          }),
        )
    keeps :
        (db' : Db W I same) (x : Wallet)
        → w ≡ some x
        → db'.wallets ≡ db.wallets
        → TxEffect q env w db (
          db',
          returned existing (record {
            wallet = x;
            private_key = "";
            is_new_wallet = false;
            idempotency_key = q.idempotency_key;
          }),
        )
    inserts :
        (db' : Db W I same) (k : KeyMaterial) (secret : String)
        → w ≡ none
        → env.generate_key ≡ some k
        → env.decrypt k.encrypted_data ≡ some secret
        → db'.wallets ≡ W.put db.wallets (activated_row env (provisioning_row q k env))
        → TxEffect q env w db (
          db',
          returned created
              (new_result W I same q (activated_row env (provisioning_row q k env)) secret),
        )

  stored-wallets :
      (key : Option String) (q : CreateWalletRequest) (result : OrchestrationResult)
      (env : Environment) (db : Db W I same)
      → (store_idempotency_record W I same key q result env db).wallets ≡ db.wallets
  stored-wallets none q result env db = refl
  stored-wallets (some key) q result env db = ground arith

  -- The branches of the writes, and then those of the keys.
  persist-TxEffect :
      (q : CreateWalletRequest) (env : Environment) (db start : Db W I same) (k : KeyMaterial)
      (secret : String) (create_fails update_fails activate_fails : Bool)
      → env.generate_key ≡ some k
      → env.decrypt k.encrypted_data ≡ some secret
      → db.wallets ≡ start.wallets
      → TxEffect q env none start
          (persist W I same q env db k secret create_fails update_fails activate_fails)
  persist-TxEffect q env db start k secret true u a g d h =
      fails db (orchestration_error wallet_persist)
  persist-TxEffect q env db start k secret false true a g d h =
      fails db (orchestration_error wallet_activation)
  persist-TxEffect q env db start k secret false false true g d h =
      fails db (orchestration_error wallet_persist)
  persist-TxEffect q env db start k secret false false false g d h =
      let w = activated_row env (provisioning_row q k env) in
      inserts _ k secret refl g d
        (stored-wallets (truthy q.idempotency_key) q _ env _ ∙ ap (λ x. W.put x w) h)

  with_secret-TxEffect :
      (q : CreateWalletRequest) (env : Environment) (db start : Db W I same) (k : KeyMaterial)
      (o : Option String)
      → env.generate_key ≡ some k
      → env.decrypt k.encrypted_data ≡ o
      → db.wallets ≡ start.wallets
      → TxEffect q env none start (with_secret W I same q env db k o)
  with_secret-TxEffect q env db start k none g d h = fails db (orchestration_error key_generation)
  with_secret-TxEffect q env db start k (some secret) g d h =
      persist-TxEffect q env db start k secret env.create_throws env.update_throws
        env.activate_throws g d h

  with_key-TxEffect :
      (q : CreateWalletRequest) (env : Environment) (db start : Db W I same)
      (o : Option KeyMaterial)
      → env.generate_key ≡ o
      → db.wallets ≡ start.wallets
      → TxEffect q env none start (with_key W I same q env db o)
  with_key-TxEffect q env db start none g h = fails db (orchestration_error key_generation)
  with_key-TxEffect q env db start (some k) g h =
      with_secret-TxEffect q env db start k (env.decrypt k.encrypted_data) g refl h

  after_check-TxEffect :
      (q : CreateWalletRequest) (env : Environment) (w : Option Wallet) (db start : Db W I same)
      → db.wallets ≡ start.wallets
      → TxEffect q env w start (after_check W I same q env w db)
  unfolding after_check create_new_wallet
  after_check-TxEffect q env (some x) db start h = keeps db x refl h
  after_check-TxEffect q env none db start h =
      with_key-TxEffect q env db start env.generate_key refl h

  checked-TxEffect :
      (q : CreateWalletRequest) (env : Environment) (w : Option Wallet) (db : Db W I same)
      (key : String)
      → truthy q.idempotency_key ≡ some key
      → TxEffect q env w db
          (checked W I same q env w db key (check_idempotency W I same key q env.now db.records))
  unfolding check_idempotency
  checked-TxEffect q env w db key t = elim (Option-cases (I.find db.records key)) [
    | inl gone ↦ rw (gone, check_idempotency) (after_check-TxEffect q env w db db refl)
    | inr (r, old) ↦ elim (Bool-cases (ltb r.expires_at env.now)) [
      | inl late ↦ rw (old, late, check_idempotency) (after_check-TxEffect q env w _ db refl)
      | inr young ↦ elim (Bool-cases (str_eq r.user_id q.user_id)) [
        | inr other ↦ rw (old, young, other, check_idempotency) (fails db key_conflict)
        | inl user ↦ elim (Bool-cases (same_network r.network q.network)) [
          | inr other ↦ rw (old, young, user, other, check_idempotency) (fails db key_conflict)
          | inl net ↦
              rw (old, young, user, net, check_idempotency) (replays key r t old (young, user, net))
        ]
      ]
    ]
  ]

  pub transaction-TxEffect :
      (q : CreateWalletRequest) (env : Environment) (w : Option Wallet) (db : Db W I same)
      → TxEffect q env w db (transaction W I same q env w db)
  unfolding transaction
  transaction-TxEffect q env w db = elim (Option-cases (truthy q.idempotency_key)) [
    | inl unkeyed ↦ rw (unkeyed, transaction) (after_check-TxEffect q env w db db refl)
    | inr (key, keyed) ↦ rw (keyed, transaction) (checked-TxEffect q env w db key keyed)
  ]
