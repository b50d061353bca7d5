-- ===== src/Recovery/Service/Admin.antt =====
-- The approval of an administrator (admin-recovery.service.ts).
use mux_backend.Prelude.{
  String, ◌≡◌, refl, sym, ap, ◌∙◌, ◌≢◌, inl, inr, true, false, Option, none, some, arith,
  Bool-cases,
}
use mux_backend.Prelude.Http.{ok, throw, Result, is_ok}
use mux_backend.Prelude.Table.{Table}
use mux_backend.Prelude.Rows.{RowTable}
use mux_backend.Wallets.Model.{Wallet}
use mux_backend.Wallets.Creation.{wallet_id}
use mux_backend.Wallets.Service as wallets
use mux_backend.Wallets.Service.{WalletKeyRotationResult, rotate_wallet_key}
use mux_backend.KeyManagement.Rotation as rotation
use mux_backend.Recovery.Model.{
  RecoveryStatus, in_review, approved, RecoveryRequest, same_status, can_transition_recovery_status,
}
use mux_backend.Recovery.Service.{AdminState, after_rotation, approve_found, approve_recovery}

module _ (T : Table String RecoveryRequest) (W : RowTable String Wallet wallet_id) where
  -- What an approval comes to.
  abbrev pub Failed :
      Option RecoveryRequest
      → rotation.Environment
      → AdminState T W
      → AdminState T W × Result RecoveryRequest
      → Type 0
  Failed found env s (s', result) =
      (is_ok result ≡ false)
      × (s'.requests ≡ s.requests)
      × ((r : RecoveryRequest)
          → found ≡ some r
          → r.status ≡ in_review
          → s'.wallets ≡ (rotate_wallet_key W r.wallet_id env s.wallets).0)
      × (((r : RecoveryRequest) → found ≡ some r → r.status ≢ in_review) → s' ≡ s)

  in_review_of : (t : RecoveryStatus) → same_status t in_review ≡ true → t ≡ in_review
  in_review_of t h = ground arith

  rotated_for :
      (r v : RecoveryRequest) (env : rotation.Environment) (s : AdminState T W)
      → ◌≡◌ {A = Option RecoveryRequest} (some r) (some v)
      → (rotate_wallet_key W r.wallet_id env s.wallets).0
        ≡ (rotate_wallet_key W v.wallet_id env s.wallets).0
  rotated_for r v env s f =
      ap (λ (x : RecoveryRequest). (rotate_wallet_key W x.wallet_id env s.wallets).0) (unwrap f)
    where
      unwrap : ◌≡◌ {A = Option RecoveryRequest} (some r) (some v) → r ≡ v
      unwrap f = cc

  after-Failed :
      (r : RecoveryRequest) (env : rotation.Environment) (s : AdminState T W)
      → same_status r.status in_review ≡ true
      → (x : wallets.State W × Result WalletKeyRotationResult)
      → rotate_wallet_key W r.wallet_id env s.wallets ≡ x
      → Failed (some r) env s (after_rotation T W s.requests x)
  after-Failed r env s review (ws, throw e) same = (
    refl,
    refl,
    λ v f g. ap (λ x. x.0) (sym same) ∙ rotated_for r v env s f,
    λ h. absurd (h r refl (in_review_of r.status review)),
  )
  after-Failed r env s review (ws, ok x) same = (
    refl,
    refl,
    λ v f g. ap (λ x. x.0) (sym same) ∙ rotated_for r v env s f,
    λ h. absurd (h r refl (in_review_of r.status review)),
  )

  reviewed :
      (t : RecoveryStatus)
      → same_status t in_review ≡ true
      → can_transition_recovery_status t approved ≡ false
      → ⊥
  unfolding can_transition_recovery_status
  reviewed t h k = ground arith

  elsewhere :
      (r v : RecoveryRequest)
      → same_status r.status in_review ≡ false
      → ◌≡◌ {A = Option RecoveryRequest} (some r) (some v)
      → v.status ≡ in_review
      → ⊥
  elsewhere r v h f g = not_other (ap (λ (x : RecoveryRequest). x.status) (unwrap f) ∙ g)
    where
      unwrap : ◌≡◌ {A = Option RecoveryRequest} (some r) (some v) → r ≡ v
      unwrap f = cc

      not_other : r.status ≡ in_review → ⊥
      not_other e = false_true (sym h ∙ ap (λ t. same_status t in_review) e)
        where
          false_true : false ≡ true → ⊥
          false_true e = cc

  -- An approval never succeeds: it throws, and no request is changed. For a stored request in review
  -- the key of its wallet is rotated all the same, if it can be, and what the rotation wrote stays;
  -- for any other request, or none, nothing is rotated.
  pub approve_outcome :
      (id : String) (env : rotation.Environment) (s : AdminState T W)
      → Failed (T.find s.requests id) env s (approve_recovery T W id env s)
  unfolding approve_recovery can_transition_recovery_status
  approve_outcome id env s = go (T.find s.requests id)
    where
      go : (o : Option RecoveryRequest) → Failed o env s (approve_found T W env o s)
      go none = (refl, refl, λ r f g. absurd (missing f), λ h. refl)
        where
          missing : {r : RecoveryRequest} → ◌≡◌ {A = Option RecoveryRequest} none (some r) → ⊥
          missing f = cc
      go (some r) = elim (Bool-cases (same_status r.status in_review)) [
        | inr other ↦ rw other (refl, refl, λ v f g. absurd (elsewhere r v other f g), λ h. refl)
        | inl review ↦ elim (Bool-cases (can_transition_recovery_status r.status approved)) [
          | inl open_row ↦ rw (review, open_row) (after-Failed r env s review _ refl)
          | inr closed ↦ absurd (reviewed r.status review closed)
        ]
      ]
