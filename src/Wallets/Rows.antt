-- ===== src/Wallets/Rows.antt =====
-- The table of wallets (prisma/schema.prisma, model Wallet): the insertion of a row under its unique
-- columns, which are the identifier and the pair of network and public key.
use mux_backend.Prelude.{
  String, ◌≡◌, sym, inl, inr, Bool, true, false, ◌&&◌, ◌||◌, Option, none, some, if◌then◌else◌,
  Bool-cases, str_eq,
}
use mux_backend.Prelude.Rows.{RowTable}
use mux_backend.Wallets.Model.{Wallet, WalletNetwork}
use mux_backend.Wallets.Creation.{wallet_id, same_network}

-- `where: { network_publicKey: { network, publicKey } }`
abbrev pub has_public_key : WalletNetwork → String → Wallet → Bool
has_public_key network key w = same_network w.network network && str_eq w.public_key key

abbrev pub is_some : Option Wallet → Bool
is_some none = false
is_some (some w) = true

module _ (W : RowTable String Wallet wallet_id) where
  abbrev pub is_taken : W.Rows → Wallet → Bool
  is_taken rows w =
      is_some (W.find rows w.id)
      || is_some (W.find_first rows (has_public_key w.network w.public_key))

  -- None is the violation of a unique constraint.
  unfoldable pub insert_wallet : Wallet → W.Rows → Option W.Rows
  insert_wallet w rows = if is_taken rows w then none else some (W.put rows w)

  pub insert_wallet-some :
      (w : Wallet) (rows rows' : W.Rows)
      → insert_wallet w rows ≡ some rows'
      → (is_taken rows w ≡ false) × (rows' ≡ W.put rows w)
  unfolding insert_wallet
  insert_wallet-some w rows rows' e = elim (Bool-cases (is_taken rows w)) [
    | inl t ↦ absurd (none_eq (rw t at e))
    | inr t ↦ (t, sym (rows_eq (rw t at e)))
  ]
    where
      none_eq : ◌≡◌ {A = Option W.Rows} none (some rows') → ⊥
      none_eq e = cc

      rows_eq : {a b : W.Rows} → ◌≡◌ {A = Option W.Rows} (some a) (some b) → a ≡ b
      rows_eq e = cc
