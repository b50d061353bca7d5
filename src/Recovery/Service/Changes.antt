-- ===== src/Recovery/Service/Changes.antt =====
-- Which status changes the requests of users and administrators can make (recovery.service.ts and
-- admin-recovery.service.ts).
use mux_backend.Prelude.{
  ℕ, String, ◌≡◌, refl, ◌⊎◌, inl, inr, true, Option, none, some, arith, Bool-cases,
}
use mux_backend.Prelude.Http.{ok, Handler, Result-cases}
use mux_backend.Prelude.Table.{Table}
use mux_backend.Recovery.Model.{
  RecoveryStatus, pending, in_review, approved, rejected, completed, cancelled, RecoveryRequest,
  can_transition_recovery_status, same_status, transition_recovery_status,
}
use mux_backend.Recovery.Service.{update, initiate, cancel}

-- The documented diagram.
infix 40 ◌⟶◌
pub data ◌⟶◌ : RecoveryStatus → RecoveryStatus → Type 0 where
  start : pending ⟶ in_review
  approve : in_review ⟶ approved
  reject : in_review ⟶ rejected
  complete : approved ⟶ completed
  cancel_pending : pending ⟶ cancelled
  cancel_review : in_review ⟶ cancelled
  cancel_approved : approved ⟶ cancelled

ruleset edges = (start, approve, reject, complete, cancel_pending, cancel_review, cancel_approved)

-- What a user can ask of a stored request.
pub data Change : Type 0 where
  updates : Option RecoveryStatus → Change
  initiates cancels : Change

module _ (T : Table String RecoveryRequest) where
  pub handle : String → ℕ → Change → Handler T.Rows RecoveryRequest
  handle id now (updates status) = update T id status now
  handle id now initiates = initiate T id now
  handle id now cancels = cancel T id now

  allowed : (a b : RecoveryStatus) → can_transition_recovery_status a b ≡ true → a ⟶ b
  unfolding can_transition_recovery_status
  allowed a b e = grind (arith, edges)

  -- What becomes of a stored request.
  abbrev pub Follows : RecoveryRequest → Option RecoveryRequest → Type 0
  Follows r none = ⊥
  Follows r (some u) =
      ((u.status ≡ r.status) ⊎ (r.status ⟶ u.status))
      × (u.wallet_id ≡ r.wallet_id)
      × (u.requester ≡ r.requester)
      × (u.metadata ≡ r.metadata)
      × (u.created_at ≡ r.created_at)

  Follows-kept :
      (rows : T.Rows) (id : String) (r : RecoveryRequest)
      → T.find rows id ≡ some r
      → Follows r (T.find rows id)
  Follows-kept rows id r e = rw e (inl refl, refl, refl, refl, refl)

  Follows-put :
      (rows : T.Rows) (id : String) (r : RecoveryRequest) (to : RecoveryStatus) (now : ℕ)
      → (to ≡ r.status) ⊎ (r.status ⟶ to)
      → Follows r (T.find (T.put rows id (record r { status = to; updated_at = now })) id)
  Follows-put rows id r to now h = rw (T.find-put rows id _) (h, refl, refl, refl, refl)

  transition-edge :
      (r u : RecoveryRequest) (to : RecoveryStatus) (now : ℕ)
      → transition_recovery_status r to now ≡ ok u
      → (u.status ≡ r.status) ⊎ (r.status ⟶ u.status)
  unfolding transition_recovery_status
  transition-edge r u to now e = ground (arith, allowed r.status to)

  update-Follows :
      (rows : T.Rows) (id : String) (status : Option RecoveryStatus) (now : ℕ) (r : RecoveryRequest)
      → T.find rows id ≡ some r
      → Follows r (T.find (update T id status now rows).0 id)
  unfolding update
  update-Follows rows id none now r e = rw (e, update) (Follows-kept rows id r e)
  update-Follows rows id (some to) now r e =
      elim (Result-cases (transition_recovery_status r to now)) [
        | inl (u, moved) ↦
            rw (e, update, moved)
              (Follows-put rows id r u.status now (transition-edge r u to now moved))
        | inr (x, bad) ↦ rw (e, update, bad) (Follows-kept rows id r e)
      ]

  initiate-Follows :
      (rows : T.Rows) (id : String) (now : ℕ) (r : RecoveryRequest)
      → T.find rows id ≡ some r
      → Follows r (T.find (initiate T id now rows).0 id)
  unfolding initiate
  initiate-Follows rows id now r e = elim (Bool-cases (same_status r.status pending)) [
    | inr other ↦ rw (e, initiate, other) (Follows-kept rows id r e)
    | inl waiting ↦ elim (Result-cases (transition_recovery_status r in_review now)) [
      | inl (u, moved) ↦
          rw (e, initiate, waiting, moved)
            (Follows-put rows id r u.status now (transition-edge r u in_review now moved))
      | inr (x, bad) ↦ rw (e, initiate, waiting, bad) (Follows-kept rows id r e)
    ]
  ]

  cancel-Follows :
      (rows : T.Rows) (id : String) (now : ℕ) (r : RecoveryRequest)
      → T.find rows id ≡ some r
      → Follows r (T.find (cancel T id now rows).0 id)
  unfolding cancel
  cancel-Follows rows id now r e =
      elim (Bool-cases (can_transition_recovery_status r.status cancelled)) [
        | inr other ↦ rw (e, cancel, other) (Follows-kept rows id r e)
        | inl open_request ↦
            rw (e, cancel, open_request)
              (Follows-put rows id r cancelled now (inr (allowed r.status cancelled open_request)))
      ]

  -- Whatever a user's update, initiation or cancellation does to a stored recovery request, the
  -- request stays, its status stays or follows an edge of the documented diagram, and its wallet,
  -- requester, metadata and date of creation are kept.
  pub handle-Follows :
      (rows : T.Rows) (id : String) (now : ℕ) (change : Change) (r : RecoveryRequest)
      → T.find rows id ≡ some r
      → Follows r (T.find (handle id now change rows).0 id)
  unfolding handle
  handle-Follows rows id now (updates status) r e = update-Follows rows id status now r e
  handle-Follows rows id now initiates r e = initiate-Follows rows id now r e
  handle-Follows rows id now cancels r e = cancel-Follows rows id now r e
