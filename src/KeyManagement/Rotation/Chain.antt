-- ===== src/KeyManagement/Rotation/Chain.antt =====
-- What a rotation of a wallet's key promises, and that a wallet is rotated once
-- (key-management.service.ts).
use mux_backend.Prelude.{
  ◌+◌, String, ◌≡◌, refl, sym, ap, ◌∙◌, subst, ◌≢◌, ◌⊎◌, inl, inr, Bool, true, false, Option, none,
  some, arith, if◌then◌else◌, Bool-cases, Option-cases, str_eq, str_eq_iff,
}
use mux_backend.Prelude.Http.{Exception, internal_error, Result, ok, throw}
use mux_backend.Prelude.Rows.{RowTable}
use mux_backend.Wallets.Model.{Wallet, WalletStatus, active, rotating}
use mux_backend.Wallets.Creation.{KeyMaterial, wallet_id}
use mux_backend.Wallets.Rows.{insert_wallet, insert_wallet-some, is_taken}
use mux_backend.KeyManagement.Rotation.{
  Environment, RotateKeyResult, is_rotatable, has_successor, successor_row, predecessor_row,
  rotation_result, commit, generate_key, with_generated, rotate_found, rotate_key,
}

-- The successor has the new key, the owner and network of the wallet, and a link back to it.
pub record IsSuccessor (env : Environment) (key : KeyMaterial) (p new : Wallet) : Type 0 where
  pub id : new.id ≡ env.new_id
  pub status : new.status ≡ active
  pub public_key : new.public_key ≡ key.public_key
  pub secret : new.encrypted_secret ≡ key.encrypted_data
  pub secret_version : new.secret_version ≡ p.secret_version + 1
  pub key_version : new.key_version ≡ 1
  pub user : new.user_id ≡ p.user_id
  pub network : new.network ≡ p.network
  pub from : new.rotated_from_id ≡ some p.id
  pub successor : new.successor_id ≡ none

-- The rotated wallet keeps its key and has a link to the successor.
pub record IsPredecessor (env : Environment) (p old : Wallet) : Type 0 where
  pub id : old.id ≡ p.id
  pub status : old.status ≡ rotating
  pub successor : old.successor_id ≡ some env.new_id
  pub public_key : old.public_key ≡ p.public_key
  pub secret : old.encrypted_secret ≡ p.encrypted_secret
  pub user : old.user_id ≡ p.user_id
  pub network : old.network ≡ p.network

module _ (W : RowTable String Wallet wallet_id) where
  -- The rows after a rotation of the wallet: the successor and the link to it.
  abbrev pub Linked : String → Environment → W.Rows → W.Rows → Wallet → KeyMaterial → Type 0
  Linked id env rows rows' p key =
      (W.find rows id ≡ some p)
      × ((p.status ≡ active) ⊎ (p.status ≡ rotating))
      × ((p.successor_id ≡ none) ⊎ (p.successor_id ≡ some ""))
      × (is_taken W rows (successor_row env key p) ≡ false)
      × (W.find rows' id ≡ some (predecessor_row env p))
      × (W.find rows' env.new_id ≡ some (successor_row env key p))
      × ((j : String) → j ≢ id → j ≢ env.new_id → W.find rows' j ≡ W.find rows j)
      × IsSuccessor env key p (successor_row env key p)
      × IsPredecessor env p (predecessor_row env p)

  -- What a rotation promises, by its outcome.
  abbrev pub Rotation : String → Environment → W.Rows → W.Rows × Result RotateKeyResult → Type 0
  Rotation id env rows (rows', ok r) =
      (env.has_request_context ≡ true)
      × (env.has_event_emitter ≡ true)
      × (p : Wallet) × (key : KeyMaterial) × (env.generated ≡ some key)
      × Linked id env rows rows' p key
      × (r.successor_wallet_id ≡ env.new_id)
      × (r.successor_public_key ≡ key.public_key)
      × (r.successor_key_version ≡ 1)
      × (r.predecessor_wallet_id ≡ id)
  Rotation id env rows (rows', throw e) =
      (rows' ≡ rows)
      ⊎ ((env.has_request_context ≡ true)
          × (env.has_event_emitter ≡ false)
          × (p : Wallet) × (key : KeyMaterial) × (env.generated ≡ some key)
          × Linked id env rows rows' p key)

  untaken : (rows : W.Rows) (w : Wallet) → is_taken W rows w ≡ false → W.find rows w.id ≡ none
  untaken rows w e = elim (Option-cases (W.find rows w.id)) [
    | inl gone ↦ gone
    | inr (v, there) ↦ absurd (found (rw (there, is_taken) at e))
  ]
    where
      found : true ≡ false → ⊥
      found e = cc

  none-some : {w : Wallet} → ◌≡◌ {A = Option Wallet} none (some w) → ⊥
  none-some e = cc

  rotatable_iff : (t : WalletStatus) → is_rotatable t ≡ true → (t ≡ active) ⊎ (t ≡ rotating)
  rotatable_iff t h = ground arith

  unlinked : (o : Option String) → has_successor o ≡ false → (o ≡ none) ⊎ (o ≡ some "")
  unlinked none h = inl refl
  unlinked (some id) h = elim (Bool-cases (str_eq id "")) [
    | inl e ↦ inr (ap some ((str_eq_iff id "").0 e))
    | inr e ↦ absurd (named (rw e at h))
  ]
    where
      named : true ≡ false → ⊥
      named e = cc

  linked :
      (id : String) (env : Environment) (rows rows' : W.Rows) (p : Wallet) (key : KeyMaterial)
      → W.find rows id ≡ some p
      → is_rotatable p.status ≡ true
      → has_successor p.successor_id ≡ false
      → insert_wallet W (successor_row env key p) rows ≡ some rows'
      → Linked id env rows (W.put rows' (predecessor_row env p)) p key
  linked id env rows rows' p key e t l i =
      let new = successor_row env key p in
      let old = predecessor_row env p in
      let (free, grown) = insert_wallet-some W new rows rows' i in
      let at_id = W.key-find rows id p e in
      let apart : env.new_id ≢ p.id =
        λ q. none-some (sym (untaken rows new free) ∙ ap (W.find rows) (q ∙ at_id) ∙ e) in
      (
        e,
        rotatable_iff p.status t,
        unlinked p.successor_id l,
        free,
        subst (λ k. W.find (W.put rows' old) k ≡ some old) at_id (W.find-put rows' old),
        W.find-put_ne rows' old env.new_id apart
            ∙ ap (λ r. W.find r env.new_id) grown
            ∙ W.find-put rows new,
        λ j n m.
            W.find-put_ne rows' old j (λ q. n (q ∙ at_id))
            ∙ ap (λ r. W.find r j) grown
            ∙ W.find-put_ne rows new j m,
        record {
          id = refl;
          status = refl;
          public_key = refl;
          secret = refl;
          secret_version = refl;
          key_version = refl;
          user = refl;
          network = refl;
          from = refl;
          successor = refl;
        },
        record {
          id = refl;
          status = refl;
          successor = refl;
          public_key = refl;
          secret = refl;
          user = refl;
          network = refl;
        },
      )

  -- A key is generated only with a request context.
  generated-context :
      (env : Environment) (key : KeyMaterial)
      → generate_key env ≡ some key
      → (env.has_request_context ≡ true) × (env.generated ≡ some key)
  generated-context env key e = elim (Bool-cases env.has_request_context) [
    | inl c ↦ (c, rw c at e)
    | inr c ↦ absurd (none_some (rw c at e))
  ]
    where
      none_some : ◌≡◌ {A = Option KeyMaterial} none (some key) → ⊥
      none_some e = cc

  -- A rotation returns only where the service has its request context and its event emitter. It has
  -- found a wallet that is active or rotating and has no successor; its successor is stored under the
  -- new identifier, which was free as was its public key, active, with the generated key, the next
  -- version of the secret and a link back; the wallet is rotating, with its key kept and a link to the
  -- successor; the other wallets are as before, and the answer names the two wallets and the new key.
  -- A rotation that throws changes nothing, unless there is a request context but no event emitter:
  -- then the rotation may be stored although it throws. Without the request context nothing is ever
  -- rotated.
  pub rotate_key-outcome :
      (id : String) (env : Environment) (rows : W.Rows)
      → Rotation id env rows (rotate_key W id env rows)
  unfolding rotate_key
  rotate_key-outcome id env rows = go (W.find rows id) refl
    where
      announced :
          (p : Wallet) (key : KeyMaterial) (rows' : W.Rows) (b : Bool)
          → env.has_event_emitter ≡ b
          → generate_key env ≡ some key
          → p.id ≡ id
          → Linked id env rows rows' p key
          → Rotation id env rows
              (rows', if b then ok (rotation_result env key p) else throw internal_error)
      announced p key rows' true e g i l =
          let (c, made) = generated-context env key g in
          (c, e, p, key, made, l, refl, refl, refl, i)
      announced p key rows' false e g i l =
          let (c, made) = generated-context env key g in inr (c, e, p, key, made, l)

      committed :
          (p : Wallet) (key : KeyMaterial) (o : Option W.Rows)
          → W.find rows id ≡ some p
          → is_rotatable p.status ≡ true
          → has_successor p.successor_id ≡ false
          → generate_key env ≡ some key
          → insert_wallet W (successor_row env key p) rows ≡ o
          → Rotation id env rows (commit W env key p rows o)
      committed p key none e t l g i = inl refl
      committed p key (some rows') e t l g i =
          announced p key (W.put rows' (predecessor_row env p)) env.has_event_emitter refl g
            (W.key-find rows id p e) (linked id env rows rows' p key e t l i)

      keyed :
          (p : Wallet) (g : Option KeyMaterial)
          → W.find rows id ≡ some p
          → is_rotatable p.status ≡ true
          → has_successor p.successor_id ≡ false
          → generate_key env ≡ g
          → Rotation id env rows (with_generated W env g p rows)
      keyed p none e t l m = inl refl
      keyed p (some key) e t l m = committed p key _ e t l m refl

      go :
          (o : Option Wallet)
          → W.find rows id ≡ o
          → Rotation id env rows (rotate_found W env o rows)
      go none e = inl refl
      go (some p) e = elim (Bool-cases (is_rotatable p.status)) [
        | inr t ↦ rw t (inl refl)
        | inl t ↦ elim (Bool-cases (has_successor p.successor_id)) [
          | inl l ↦ rw (t, l) (inl refl)
          | inr l ↦ rw (t, l) (keyed p (generate_key env) e t l refl)
        ]
      ]

  -- A wallet has at most one successor: after a rotation that returns, a second rotation of the same
  -- wallet throws and changes nothing.
  rotate_once :
      (id : String) (env again : Environment) (rows : W.Rows) (r : RotateKeyResult)
      → (rotate_key W id env rows).1 ≡ ok r
      → has_successor (some env.new_id) ≡ true
      → let rows' = (rotate_key W id env rows).0 in
        rotate_key W id again rows' ≡ (rows', throw internal_error)
  unfolding rotate_key
  rotate_once id env again rows r e named =
      go (rotate_key W id env rows) e (rotate_key-outcome id env rows)
    where
      throw_ok : {c : Exception} → ◌≡◌ {A = Result RotateKeyResult} (throw c) (ok r) → ⊥
      throw_ok e = cc

      refused :
          (p : Wallet) (rows' : W.Rows)
          → W.find rows' id ≡ some (predecessor_row env p)
          → rotate_key W id again rows' ≡ (rows', throw internal_error)
      refused p rows' there =
          ap (λ o. rotate_found W again o rows') there ∙ rw (rotate_found, named) refl

      go :
          (x : W.Rows × Result RotateKeyResult)
          → x.1 ≡ ok r
          → Rotation id env rows x
          → rotate_key W id again x.0 ≡ (x.0, throw internal_error)
      go (rows', throw c) f x = absurd (throw_ok f)
      go (rows', ok s) f (c, a, p, key, made, l, _, _, _, _) = refused p rows' l.4
