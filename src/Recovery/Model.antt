-- ===== src/Recovery/Model.antt =====
-- src/recovery/domain/recovery.model.ts
use mux_backend.Prelude.{ℕ, String, Bool, true, false, Option, if◌then◌else◌}
use mux_backend.Prelude.Http.{internal_error, Result, ok, throw}

pub data RecoveryStatus : Type 0 where
  pending in_review approved rejected completed cancelled : RecoveryStatus

pub record RecoveryRequest : Type 0 where
  pub id : String
  pub wallet_id : String
  pub requester : String
  pub status : RecoveryStatus
  pub metadata : Option String
  pub created_at : ℕ
  pub updated_at : ℕ

-- ALLOWED_TRANSITIONS, row by row.
unfoldable pub can_transition_recovery_status : RecoveryStatus → RecoveryStatus → Bool
can_transition_recovery_status pending in_review = true
can_transition_recovery_status pending cancelled = true
can_transition_recovery_status in_review approved = true
can_transition_recovery_status in_review rejected = true
can_transition_recovery_status in_review cancelled = true
can_transition_recovery_status approved completed = true
can_transition_recovery_status approved cancelled = true
can_transition_recovery_status _ _ = false

-- `===` on two members of the enum.
abbrev pub same_status : RecoveryStatus → RecoveryStatus → Bool
same_status pending pending = true
same_status in_review in_review = true
same_status approved approved = true
same_status rejected rejected = true
same_status completed completed = true
same_status cancelled cancelled = true
same_status _ _ = false

unfoldable pub transition_recovery_status :
    RecoveryRequest → RecoveryStatus → ℕ → Result RecoveryRequest
unfolding can_transition_recovery_status
transition_recovery_status r to at =
    if same_status r.status to
    then ok r
    else (if can_transition_recovery_status r.status to
        then ok (record r { status = to; updated_at = at })
        else throw internal_error)
