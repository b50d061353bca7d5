-- ===== src/Wallets/Service/Keys.antt =====
-- Who signs with the key of a wallet (wallets.service.ts).
use mux_backend.Prelude.{
  String, ◌≡◌, refl, ap, ◌∙◌, ◌↔◌, inl, inr, true, some, arith, Bool-cases, Option-cases,
}
use mux_backend.Prelude.Http.{Exception, Result, ok, throw, or_throw}
use mux_backend.Prelude.Rows.{RowTable}
use mux_backend.Wallets.Model.{Wallet, WalletStatus, active}
use mux_backend.Wallets.Creation.{wallet_id}
use mux_backend.Wallets.Service.{
  State, Environment, is_active, decrypted, secret_of, get_decrypted_private_key, signed,
  sign_transaction,
}

is_active-active : (s : WalletStatus) → is_active s ≡ true → s ≡ active
is_active-active s e = ground arith

module _ (W : RowTable String Wallet wallet_id) where
  throw_ok : {x : String} {e : Exception} → ◌≡◌ {A = Result String} (throw e) (ok x) → ⊥
  throw_ok e = cc

  ok_eq : {x y : String} → ◌≡◌ {A = Result String} (ok x) (ok y) → x ≡ y
  ok_eq e = cc

  -- The wallet is active, and its secret is decrypted to the key.
  abbrev pub HasKey : String → Environment → State W → String → Type 0
  HasKey id env s key =
      (w : Wallet) × (W.find s.wallets id ≡ some w)
      × (w.status ≡ active)
      × (env.decrypt w.encrypted_secret ≡ ok key)

  decrypted-ok : (r : Result String) (key : String) → decrypted W r ≡ ok key → r ≡ ok key
  decrypted-ok (ok x) key e = e
  decrypted-ok (throw c) key e = absurd (never c e)
    where
      never : (c : Exception) → decrypted W (throw c) ≡ ok key → ⊥
      never c e = ground arith

  key_iff :
      (id : String) (env : Environment) (s : State W) (key : String)
      → ((get_decrypted_private_key W id env s).1 ≡ ok key) ↔ HasKey id env s key
  unfolding get_decrypted_private_key
  key_iff id env s key = (
    λ e. elim (Option-cases (W.find s.wallets id)) [
      | inl gone ↦ absurd (throw_ok (rw (gone, secret_of) at e))
      | inr (w, there) ↦ elim (Bool-cases (is_active w.status)) [
        | inr off ↦ absurd (throw_ok (rw (there, secret_of, off) at e))
        | inl on ↦ (
          w,
          there,
          is_active-active w.status on,
          decrypted-ok (env.decrypt w.encrypted_secret) key (rw (there, secret_of, on) at e),
        )
      ]
    ],
    λ (w, there, on, opens).
        let is_on : is_active w.status ≡ true = ap is_active on in
        rw (there, secret_of, is_on, opens) refl,
  )

  key_keeps :
      (id : String) (env : Environment) (s : State W) → (get_decrypted_private_key W id env s).0 ≡ s
  unfolding get_decrypted_private_key
  key_keeps id env s = elim (Option-cases (W.find s.wallets id)) [
    | inl gone ↦ rw (gone, secret_of) refl
    | inr (w, there) ↦ elim (Bool-cases (is_active w.status)) [
      | inr off ↦ rw (there, secret_of, off) refl
      | inl on ↦ rw (there, secret_of, on) refl
    ]
  ]

  signed-ok :
      (env : Environment) (text signature : String) (r : State W × Result String)
      → (signed W env text r).1 ≡ ok signature
      → (key : String) × (r.1 ≡ ok key) × (env.sign key text ≡ some signature)
  signed-ok env text signature (s, throw e) h = absurd (throw_ok h)
  signed-ok env text signature (s, ok key) h = elim (Option-cases (env.sign key text)) [
    | inl none_yet ↦ absurd (throw_ok (rw (none_yet, or_throw) at h))
    | inr (x, there) ↦ (key, refl, there ∙ ap some (ok_eq (rw (there, or_throw) at h)))
  ]

  ok-signed :
      (env : Environment) (text signature key : String) (r : State W × Result String)
      → r.1 ≡ ok key
      → env.sign key text ≡ some signature
      → (signed W env text r).1 ≡ ok signature
  ok-signed env text signature key (s, throw e) h g = absurd (throw_ok h)
  ok-signed env text signature key (s, ok k) h g =
      let g' : env.sign k text ≡ some signature = ap (λ x. env.sign x text) (ok_eq h) ∙ g in
      rw (g', or_throw) refl

  -- A transaction is signed with the key of a wallet exactly when the wallet exists, is active, and
  -- its secret is decrypted to a key that signs the text; every other call throws.
  pub sign-ok_iff :
      (id text signature : String) (env : Environment) (s : State W)
      → ((sign_transaction W id text env s).1 ≡ ok signature)
        ↔ ((key : String) × HasKey id env s key × (env.sign key text ≡ some signature))
  unfolding sign_transaction
  sign-ok_iff id text signature env s =
      let r = get_decrypted_private_key W id env s in
      (
        λ e.
            let (key, got, signs) = signed-ok env text signature r e in
            (key, (key_iff id env s key).0 got, signs),
        λ (key, has, signs).
            ok-signed env text signature key r ((key_iff id env s key).1 has) signs,
      )
