-- ===== src/Wallets/Service/Retirement.antt =====
-- A wallet that is retired never signs again, whatever the service is asked for (wallets.service.ts).
use mux_backend.Prelude.{
  String, ◌≡◌, refl, sym, ◌∙◌, subst, ◌≢◌, inl, inr, Bool, true, false, not, ◌&&◌, Option, none,
  some, List, [], ◌∷◌, arith, ltb, Bool-cases, str_eq,
}
use mux_backend.Prelude.Http.{Exception, not_found, internal_error, Result, ok, throw}
use mux_backend.Prelude.Rows.{RowTable, filter_row}
use mux_backend.Transactions.Model.{Transaction}
use mux_backend.Wallets.Model.{
  Wallet, WalletStatus, archived, same_status, can_transition_wallet_status,
}
use mux_backend.Wallets.Model.Lifecycle.{retired}
use mux_backend.Wallets.Creation.{KeyMaterial, wallet_id, is_of, is_provisioning}
use mux_backend.Wallets.Rows.{insert_wallet, insert_wallet-some, is_some}
use mux_backend.KeyManagement.Rotation as rotation
use mux_backend.KeyManagement.Rotation.{
  RotateKeyResult, is_rotatable, has_successor, successor_row, predecessor_row, commit,
  with_generated, generate_key, rotate_found, rotate_key,
}
use mux_backend.Wallets.Service.{
  State, Environment, CreateWalletRequest, new_wallet, with_status, with_nickname, or_text,
  is_active, create_row, create_decrypted, create_with, create_wallet, rotation_read,
  after_rotation, rotate_existing, rotate_wallet_key, update_found, update_wallet_status,
  activate_found, activate_wallet, nickname_found, update_nickname, pending_transaction_count,
  remove_found, remove, archive_wallet, secret_of, get_decrypted_private_key,
}

-- The calls of the service that write.
pub data Request : Type 0 where
  creates : CreateWalletRequest → Environment → Request
  rotates : String → rotation.Environment → Request
  updates : String → WalletStatus → Option String → Environment → Request
  activates : String → Option String → Environment → Request
  names : String → Option String → Environment → Request
  removes : String → List Transaction → Environment → Request
  archives : String → Option String → Environment → Request

-- The identifier that the database draws for a new row is not this one.
abbrev pub IsOther : String → Request → Type 0
IsOther id (creates q env) = env.new_id ≢ id
IsOther id (rotates k env) = env.new_id ≢ id
IsOther id _ = Unit

abbrev pub AreOthers : String → List Request → Type 0
AreOthers id [] = Unit
AreOthers id (q ∷ qs) = IsOther id q × AreOthers id qs

retired_stays :
    (from to : WalletStatus)
    → retired from ≡ true
    → (not (same_status from to) && not (can_transition_wallet_status from to)) ≡ false
    → retired to ≡ true
unfolding can_transition_wallet_status
retired_stays from to r e = ground arith

retired_provisioning : (s : WalletStatus) → retired s ≡ true → is_provisioning s ≡ false
retired_provisioning s e = ground arith

retired_rotatable : (s : WalletStatus) → retired s ≡ true → is_rotatable s ≡ false
retired_rotatable s e = ground arith

retired_active : (s : WalletStatus) → retired s ≡ true → is_active s ≡ false
retired_active s e = ground arith

module _ (W : RowTable String Wallet wallet_id) where
  unfoldable pub step : State W → Request → State W
  step s (creates q env) = (create_wallet W q env s).0
  step s (rotates id env) = (rotate_wallet_key W id env s).0
  step s (updates id status reason env) = (update_wallet_status W id status reason env s).0
  step s (activates id reason env) = (activate_wallet W id reason env s).0
  step s (names id nickname env) = (update_nickname W id nickname env s).0
  step s (removes id ts env) = (remove W id ts env s).0
  step s (archives id reason env) = (archive_wallet W id reason env s).0

  unfoldable pub run : State W → List Request → State W
  run s [] = s
  run s (q ∷ qs) = run (step s q) qs

  abbrev pub RetiredRow : Option Wallet → Type 0
  RetiredRow none = Unit
  RetiredRow (some w) = retired w.status ≡ true

  -- The wallet is disabled, compromised or archived, or is deleted.
  abbrev pub IsRetired : String → W.Rows → Type 0
  IsRetired id rows = RetiredRow (W.find rows id)

  put-IsRetired :
      (rows : W.Rows) (id : String) (w : Wallet)
      → Discrete String
      → (w.id ≡ id → retired w.status ≡ true)
      → IsRetired id rows
      → IsRetired id (W.put rows w)
  put-IsRetired rows id w dec h r = elim (dec id w.id) [
    | yes p ↦
        subst RetiredRow
          (sym (subst (λ k. W.find (W.put rows w) k ≡ some w) (sym p) (W.find-put rows w)))
          (h (sym p))
    | no p ↦ subst RetiredRow (sym (W.find-put_ne rows w id p)) r
  ]

  stored-retired :
      (rows : W.Rows) (id k : String) (w : Wallet)
      → IsRetired id rows
      → W.find rows k ≡ some w
      → w.id ≡ id
      → retired w.status ≡ true
  stored-retired rows id k w r e p =
      subst RetiredRow (subst (λ j. W.find rows j ≡ some w) (sym (W.key-find rows k w e) ∙ p) e) r

  insert-IsRetired :
      (w : Wallet) (rows rows' : W.Rows) (id : String)
      → Discrete String
      → w.id ≢ id
      → insert_wallet W w rows ≡ some rows'
      → IsRetired id rows
      → IsRetired id rows'
  insert-IsRetired w rows rows' id dec n e r =
      subst (IsRetired id) (sym (insert_wallet-some W w rows rows' e).1)
        (put-IsRetired rows id w dec (λ p. absurd (n p)) r)

  create-IsRetired :
      (q : CreateWalletRequest) (env : Environment) (s : State W) (id : String)
      → Discrete String
      → env.new_id ≢ id
      → IsRetired id s.wallets
      → IsRetired id (create_wallet W q env s).0.wallets
  unfolding create_wallet
  create-IsRetired q env s id dec n r =
      elim (Bool-cases (is_some (W.find_first s.wallets (is_of q.user_id q.network)))) [
        | inl there ↦ rw there r
        | inr free ↦ rw free (with_key env.generated)
      ]
    where
      inserted :
          (key : KeyMaterial) (secret : String) (o : Option W.Rows)
          → insert_wallet W (new_wallet q key env) s.wallets ≡ o
          → IsRetired id (create_row W q env key secret s o).0.wallets
      inserted key secret none e = r
      inserted key secret (some rows) e =
          insert-IsRetired (new_wallet q key env) s.wallets rows id dec n e r

      with_decrypted :
          (key : KeyMaterial) (d : Result String)
          → IsRetired id (create_decrypted W q env key d s).0.wallets
      with_decrypted key (throw e) = r
      with_decrypted key (ok secret) = elim (Bool-cases env.write_fails) [
        | inl f ↦ rw f r
        | inr f ↦ rw f (inserted key secret _ refl)
      ]

      with_key : (k : Option KeyMaterial) → IsRetired id (create_with W q env k s).0.wallets
      with_key none = r
      with_key (some key) = with_decrypted key (env.decrypt key.encrypted_data)

  rotate_key-IsRetired :
      (k : String) (env : rotation.Environment) (rows : W.Rows) (id : String)
      → Discrete String
      → env.new_id ≢ id
      → IsRetired id rows
      → IsRetired id (rotate_key W k env rows).0
  unfolding rotate_key
  rotate_key-IsRetired k env rows id dec n r = go (W.find rows k) refl
    where
      committed :
          (key : KeyMaterial) (p : Wallet) (o : Option W.Rows)
          → W.find rows k ≡ some p
          → is_rotatable p.status ≡ true
          → insert_wallet W (successor_row env key p) rows ≡ o
          → IsRetired id (commit W env key p rows o).0
      committed key p none e t f = r
      committed key p (some rows') e t f =
          put-IsRetired rows' id (predecessor_row env p) dec
            (λ i. absurd (clash t (retired_rotatable p.status (stored-retired rows id k p r e i))))
            (insert-IsRetired (successor_row env key p) rows rows' id dec n f r)
        where
          clash : {b : Bool} → b ≡ true → b ≡ false → ⊥
          clash e f = cc

      keyed :
          (p : Wallet) (g : Option KeyMaterial)
          → W.find rows k ≡ some p
          → is_rotatable p.status ≡ true
          → IsRetired id (with_generated W env g p rows).0
      keyed p none e t = r
      keyed p (some key) e t = committed key p _ e t refl

      go : (o : Option Wallet) → W.find rows k ≡ o → IsRetired id (rotate_found W env o rows).0
      go none e = r
      go (some p) e = elim (Bool-cases (is_rotatable p.status)) [
        | inr t ↦ rw t r
        | inl t ↦ elim (Bool-cases (has_successor p.successor_id)) [
          | inl l ↦ rw (t, l) r
          | inr l ↦ rw (t, l) (keyed p (generate_key env) e t)
        ]
      ]

  rotation_read-rows :
      (s : State W) (rows : W.Rows) (p n : Option Wallet)
      → (rotation_read W s rows p n).0.wallets ≡ rows
  rotation_read-rows s rows none none = refl
  rotation_read-rows s rows (some p) none = refl
  rotation_read-rows s rows none (some n) = refl
  rotation_read-rows s rows (some p) (some n) = refl

  after_rotation-rows :
      (s : State W) (x : W.Rows × Result RotateKeyResult) → (after_rotation W s x).0.wallets ≡ x.0
  after_rotation-rows s (rows, ok r) =
      rotation_read-rows s rows (W.find rows r.predecessor_wallet_id)
        (W.find rows r.successor_wallet_id)
  after_rotation-rows s (rows, throw e) = by_exception e
    where
      by_exception : (e : Exception) → (after_rotation W s (rows, throw e)).0.wallets ≡ rows
      by_exception e = ground arith

  rotate-IsRetired :
      (k : String) (env : rotation.Environment) (s : State W) (id : String)
      → Discrete String
      → env.new_id ≢ id
      → IsRetired id s.wallets
      → IsRetired id (rotate_wallet_key W k env s).0.wallets
  unfolding rotate_wallet_key
  rotate-IsRetired k env s id dec n r = go (W.find s.wallets k)
    where
      go : (o : Option Wallet) → IsRetired id (rotate_existing W k env o s).0.wallets
      go none = r
      go (some w) =
          subst (IsRetired id) (sym (after_rotation-rows s (rotate_key W k env s.wallets)))
            (rotate_key-IsRetired k env s.wallets id dec n r)

  update-IsRetired :
      (k : String) (status : WalletStatus) (reason : Option String) (env : Environment)
      (s : State W) (id : String)
      → Discrete String
      → IsRetired id s.wallets
      → IsRetired id (update_wallet_status W k status reason env s).0.wallets
  unfolding update_wallet_status
  update-IsRetired k status reason env s id dec r = go (W.find s.wallets k) refl
    where
      go :
          (o : Option Wallet)
          → W.find s.wallets k ≡ o
          → IsRetired id (update_found W status reason env o s).0.wallets
      go none e = r
      go (some w) e =
          elim (Bool-cases (
            not (same_status w.status status)
            && not (can_transition_wallet_status w.status status))) [
              | inl t ↦ rw t r
              | inr t ↦ elim (Bool-cases env.write_fails) [
                | inl f ↦ rw (t, f) r
                | inr f ↦
                    rw (t, f)
                      (put-IsRetired s.wallets id (with_status status reason env.now w) dec
                        (λ p.
                          retired_stays w.status status (stored-retired s.wallets id k w r e p) t)
                        r)
              ]
            ]

  activate-IsRetired :
      (k : String) (reason : Option String) (env : Environment) (s : State W) (id : String)
      → Discrete String
      → IsRetired id s.wallets
      → IsRetired id (activate_wallet W k reason env s).0.wallets
  unfolding activate_wallet
  activate-IsRetired k reason env s id dec r = go (W.find s.wallets k) refl
    where
      clash : {b : Bool} → b ≡ true → b ≡ false → ⊥
      clash e f = cc

      go :
          (o : Option Wallet)
          → W.find s.wallets k ≡ o
          → IsRetired id (activate_found W reason env o s).0.wallets
      go none e = r
      go (some w) e = elim (Bool-cases (is_provisioning w.status)) [
        | inr t ↦ rw t r
        | inl t ↦ elim (Bool-cases env.write_fails) [
          | inl f ↦ rw (t, f) r
          | inr f ↦
              rw (t, f)
                (put-IsRetired s.wallets id _ dec
                  (λ p. absurd (
                    clash t
                      (retired_provisioning w.status (stored-retired s.wallets id k w r e p))))
                  r)
        ]
      ]

  name-IsRetired :
      (k : String) (nickname : Option String) (env : Environment) (s : State W) (id : String)
      → Discrete String
      → IsRetired id s.wallets
      → IsRetired id (update_nickname W k nickname env s).0.wallets
  unfolding update_nickname
  name-IsRetired k nickname env s id dec r = go (W.find s.wallets k) refl
    where
      go :
          (o : Option Wallet)
          → W.find s.wallets k ≡ o
          → IsRetired id (nickname_found W nickname env o s).0.wallets
      go none e = r
      go (some w) e = elim (Bool-cases env.write_fails) [
        | inl f ↦ rw f r
        | inr f ↦ rw f (
            put-IsRetired s.wallets id (with_nickname nickname env.now w) dec
              (stored-retired s.wallets id k w r e) r)
      ]

  remove-IsRetired :
      (k : String) (ts : List Transaction) (env : Environment) (s : State W) (id : String)
      → IsRetired id s.wallets
      → IsRetired id (remove W k ts env s).0.wallets
  unfolding remove
  remove-IsRetired k ts env s id r = go (W.find s.wallets k)
    where
      filtered :
          (p : Wallet → Bool) (o : Option Wallet) → RetiredRow o → RetiredRow (filter_row p o)
      filtered p none r = tt
      filtered p (some w) r = elim (Bool-cases (p w)) [
        | inl t ↦ rw (t, filter_row) r
        | inr t ↦ rw (t, filter_row) tt
      ]

      go : (o : Option Wallet) → IsRetired id (remove_found W k ts env o s).0.wallets
      go none = r
      go (some w) = elim (Bool-cases (ltb 0 (pending_transaction_count k ts))) [
        | inl t ↦ rw t r
        | inr t ↦ elim (Bool-cases env.write_fails) [
          | inl f ↦ rw (t, f) r
          | inr f ↦
              rw (t, f)
                (subst RetiredRow (sym (W.find-remove_many s.wallets (λ v. str_eq v.id k) id))
                  (filtered (λ v. not (str_eq v.id k)) (W.find s.wallets id) r))
        ]
      ]

  step-IsRetired :
      (s : State W) (q : Request) (id : String)
      → Discrete String
      → IsOther id q
      → IsRetired id s.wallets
      → IsRetired id (step s q).wallets
  unfolding step archive_wallet
  step-IsRetired s (creates q env) id dec n r = create-IsRetired q env s id dec n r
  step-IsRetired s (rotates k env) id dec n r = rotate-IsRetired k env s id dec n r
  step-IsRetired s (updates k status reason env) id dec n r =
      update-IsRetired k status reason env s id dec r
  step-IsRetired s (activates k reason env) id dec n r = activate-IsRetired k reason env s id dec r
  step-IsRetired s (names k nickname env) id dec n r = name-IsRetired k nickname env s id dec r
  step-IsRetired s (removes k ts env) id dec n r = remove-IsRetired k ts env s id r
  step-IsRetired s (archives k reason env) id dec n r =
      update-IsRetired k archived (or_text reason "Wallet archived") env s id dec r

  run-IsRetired :
      (s : State W) (qs : List Request) (id : String)
      → Discrete String
      → AreOthers id qs
      → IsRetired id s.wallets
      → IsRetired id (run s qs).wallets
  unfolding run
  run-IsRetired s [] id dec n r = r
  run-IsRetired s (q ∷ qs) id dec n r =
      run-IsRetired (step s q) qs id dec n.1 (step-IsRetired s q id dec n.0 r)

  -- The key of a wallet that is disabled, compromised or archived is never decrypted again: whatever
  -- wallets are created, rotated, activated, renamed, deleted and archived and whatever statuses are
  -- asked for, if no new row is given its identifier, every request for its key throws and changes
  -- nothing.
  pub retired_keyless :
      (s : State W) (qs : List Request) (id : String) (env : Environment)
      → Discrete String
      → AreOthers id qs
      → IsRetired id s.wallets
      → (e : Exception) × (get_decrypted_private_key W id env (run s qs) ≡ (run s qs, throw e))
  unfolding get_decrypted_private_key
  retired_keyless s qs id env dec n r =
      go (W.find (run s qs).wallets id) (run-IsRetired s qs id dec n r)
    where
      go :
          (o : Option Wallet)
          → RetiredRow o
          → (e : Exception) × (secret_of W env o (run s qs) ≡ (run s qs, throw e))
      go none r = (not_found, refl)
      go (some w) r =
          let off = retired_active w.status r in (internal_error, rw (secret_of, off) refl)
