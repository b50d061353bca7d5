-- ===== src/Wallets/Creation/Unique.antt =====
-- What the creation of a wallet promises, and that a user has at most one wallet on a network
-- (wallet-creation-orchestrator.service.ts).
use mux_backend.Prelude.{
  ℕ, String, ◌≡◌, refl, sym, ap, ◌∙◌, subst, inl, inr, Bool, true, false, not, Option, none, some,
  List, [], ◌∷◌, arith, Bool-cases, str_eq_iff,
}
use mux_backend.Prelude.Rows.{RowTable, filter_row}
use mux_backend.Wallets.Model.{Wallet, WalletNetwork, active, mainnet, testnet}
use mux_backend.Wallets.Creation.{
  CreateWalletRequest, IdempotencyRecord, Environment, Outcome, returned, threw, created,
  wallet_created, wallet_activated, WalletCache, finish, wallet_id, record_key, is_of, same_network,
  Db, State, find_existing_wallet, get_wallet_by_user, create_wallet, activated_row,
  provisioning_row, cleanup_stale_provisioning_wallets,
}
use mux_backend.Wallets.Creation.Effects.{
  TxEffect, fails, replays, keeps, inserts, transaction-TxEffect,
}

some_eq {ℓ} : {A : Type ℓ} {a b : A} → ◌≡◌ {A = Option A} (some a) (some b) → a ≡ b
some_eq e = cc

same_network_refl : (n : WalletNetwork) → same_network n n ≡ true
same_network_refl mainnet = refl
same_network_refl testnet = refl

is_of_self :
    (w : Wallet) (user : String) (network : WalletNetwork)
    → w.user_id ≡ user
    → w.network ≡ network
    → is_of user network w ≡ true
is_of_self w user network u n =
    let e = (str_eq_iff w.user_id user).1 u in
    let f : same_network w.network network ≡ true =
      subst (λ m. same_network w.network m ≡ true) n (same_network_refl w.network) in
    ground arith

module _ (W : RowTable String Wallet wallet_id) (I : RowTable String IdempotencyRecord record_key)
    (same : Discrete (String × WalletNetwork)) where
  find_existing_wallet-none :
      (user : String) (network : WalletNetwork) (now : ℕ) (wallets : W.Rows)
      (cache : WalletCache W I same)
      → (find_existing_wallet W I same user network now wallets cache).0 ≡ none
      → W.find_first wallets (is_of user network) ≡ none
  unfolding find_existing_wallet
  find_existing_wallet-none user network now wallets cache e = ground arith

  -- What a creation promises, by its outcome.
  abbrev pub Promise :
      CreateWalletRequest → Environment → State W I same → State W I same × Outcome → Type 0
  Promise q env s (s', threw e) = (s'.db ≡ s.db) × (s'.events ≡ s.events)
  Promise q env s (s', returned created r) =
      (w : Wallet) × (W.find_first s.db.wallets (is_of q.user_id q.network) ≡ none)
      × (W.find s'.db.wallets env.new_id ≡ some w)
      × (w.user_id ≡ q.user_id)
      × (w.network ≡ q.network)
      × (w.status ≡ active)
      × (env.decrypt w.encrypted_secret ≡ some r.private_key)
      × (s'.events ≡ wallet_activated r.wallet ∷ wallet_created r.wallet ∷ s.events)
  Promise q env s (s', returned o r) =
      (s'.db.wallets ≡ s.db.wallets) × (s'.events ≡ s.events) × (r.private_key ≡ "")

  -- At most one wallet of a user on a network.
  pub record IsUnique (rows : W.Rows) : Type 0 where
    pub same_id :
        (i j : String) (w v : Wallet)
        → W.find rows i ≡ some w
        → W.find rows j ≡ some v
        → w.user_id ≡ v.user_id
        → w.network ≡ v.network
        → i ≡ j

  put-same_id :
      (rows : W.Rows) (row : Wallet)
      → Discrete String
      → W.find_first rows (is_of row.user_id row.network) ≡ none
      → IsUnique rows
      → (i j : String) (w v : Wallet) → W.find (W.put rows row) i ≡ some w
      → W.find (W.put rows row) j ≡ some v
      → w.user_id ≡ v.user_id
      → w.network ≡ v.network
      → i ≡ j
  put-same_id rows row dec none_yet h i j w v f g u n = elim (dec i row.id) [
    | yes p ↦ elim (dec j row.id) [
      | yes r ↦ p ∙ sym r
      | no r ↦
          let w_row : w ≡ row = is_row i w p f in
          absurd (
            fresh j v (sym (W.find-put_ne rows row j r) ∙ g)
              (sym u ∙ ap (λ (x : Wallet). x.user_id) w_row)
              (sym n ∙ ap (λ (x : Wallet). x.network) w_row))
    ]
    | no p ↦ elim (dec j row.id) [
      | yes r ↦
          let v_row : v ≡ row = is_row j v r g in
          absurd (
            fresh i w (sym (W.find-put_ne rows row i p) ∙ f)
              (u ∙ ap (λ (x : Wallet). x.user_id) v_row) (n ∙ ap (λ (x : Wallet). x.network) v_row))
      | no r ↦
          h.same_id i j w v (sym (W.find-put_ne rows row i p) ∙ f)
            (sym (W.find-put_ne rows row j r) ∙ g) u n
    ]
  ]
    where
      is_row : (k : String) (x : Wallet) → k ≡ row.id → W.find (W.put rows row) k ≡ some x → x ≡ row
      is_row k x e f = some_eq (sym f ∙ ap (W.find (W.put rows row)) e ∙ W.find-put rows row)

      clash : {b : Bool} → b ≡ true → b ≡ false → ⊥
      clash e f = cc

      fresh :
          (k : String) (x : Wallet)
          → W.find rows k ≡ some x
          → x.user_id ≡ row.user_id
          → x.network ≡ row.network
          → ⊥
      fresh k x f u n =
          clash (is_of_self x row.user_id row.network u n)
            (W.find_first_none rows (is_of row.user_id row.network) k x none_yet f)

  finish-IsUnique :
      (q : CreateWalletRequest) (env : Environment) (w : Option Wallet) (s : State W I same)
      (cache : WalletCache W I same) (out : Db W I same × Outcome)
      → Discrete String
      → (w ≡ none → W.find_first s.db.wallets (is_of q.user_id q.network) ≡ none)
      → TxEffect W I same q env w s.db out
      → IsUnique s.db.wallets
      → IsUnique (finish W I same s cache out).0.db.wallets
  finish-IsUnique q env w s cache _ dec h (fails db e) u = u
  finish-IsUnique q env w s cache _ dec h (replays key r t old fits) u = u
  finish-IsUnique q env w s cache _ dec h (keeps db x there kept) u = subst IsUnique (sym kept) u
  finish-IsUnique q env w s cache _ dec h (inserts db k secret new g d grown) u =
      subst IsUnique (sym grown) (record {
        same_id =
            put-same_id s.db.wallets (activated_row env (provisioning_row q k env)) dec (h new) u;
      })

  create_wallet-IsUnique :
      (q : CreateWalletRequest) (env : Environment) (s : State W I same)
      → Discrete String
      → IsUnique s.db.wallets
      → IsUnique (create_wallet W I same q env s).0.db.wallets
  unfolding create_wallet
  create_wallet-IsUnique q env s dec u = elim (Bool-cases (env.user_exists q.user_id)) [
    | inr unknown ↦ rw (unknown, create_wallet) u
    | inl known ↦
        rw (known, create_wallet)
          (finish-IsUnique q env _ s _ _ dec
            (find_existing_wallet-none q.user_id q.network env.now s.db.wallets s.cache)
            (transaction-TxEffect W I same q env _ s.db) u)
  ]

  -- What the rest of the system asks of the orchestrator.
  pub data Request : Type 0 where
    creates : CreateWalletRequest → Environment → Request
    looks_up : String → WalletNetwork → ℕ → Request
    cleans_up : ℕ → ℕ → Request

  unfoldable pub step : State W I same → Request → State W I same
  step s (creates q env) = (create_wallet W I same q env s).0
  step s (looks_up user network now) = (get_wallet_by_user W I same user network now s).0
  step s (cleans_up age now) = cleanup_stale_provisioning_wallets W I same age now s

  unfoldable pub run : State W I same → List Request → State W I same
  run s [] = s
  run s (q ∷ qs) = run (step s q) qs

  filtered :
      (p : Wallet → Bool) (o : Option Wallet) (w : Wallet) → filter_row p o ≡ some w → o ≡ some w
  filtered p none w e = e
  filtered p (some v) w e = ground arith

  removed-IsUnique :
      (rows : W.Rows) (p : Wallet → Bool) → IsUnique rows → IsUnique (W.remove_many rows p)
  removed-IsUnique rows p u = record {
    same_id = λ i j w v f g. u.same_id i j w v (kept i w f) (kept j v g);
  }
    where
      kept :
          (k : String) (x : Wallet)
          → W.find (W.remove_many rows p) k ≡ some x
          → W.find rows k ≡ some x
      kept k x e =
          filtered (λ w. not (p w)) (W.find rows k) x (sym (W.find-remove_many rows p k) ∙ e)

  step-IsUnique :
      (s : State W I same) (q : Request)
      → Discrete String
      → IsUnique s.db.wallets
      → IsUnique (step s q).db.wallets
  unfolding step get_wallet_by_user cleanup_stale_provisioning_wallets
  step-IsUnique s (creates q env) dec u = create_wallet-IsUnique q env s dec u
  step-IsUnique s (looks_up user network now) dec u = u
  step-IsUnique s (cleans_up age now) dec u = removed-IsUnique s.db.wallets _ u

  -- Whatever wallets are created, looked up and cleaned up, one after the other, with whatever
  -- failures of keys and tables, a user has at most one wallet on a network.
  pub run-IsUnique :
      (s : State W I same) (qs : List Request)
      → Discrete String
      → IsUnique s.db.wallets
      → IsUnique (run s qs).db.wallets
  unfolding run
  run-IsUnique s [] dec u = u
  run-IsUnique s (q ∷ qs) dec u = run-IsUnique (step s q) qs dec (step-IsUnique s q dec u)
