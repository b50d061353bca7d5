-- ===== src/Wallets/Service/Updates.antt =====
-- What a change of status promises (wallets.service.ts).
use mux_backend.Prelude.{
  ℕ, String, ◌≡◌, refl, sym, ap, ◌∙◌, subst, ◌≢◌, ◌⊎◌, inl, inr, Bool, true, false, not, ◌&&◌, ◌||◌,
  Option, none, some, List, [], ◌∷◌, ◌++◌, arith, if◌then◌else◌, Bool-cases,
}
use mux_backend.Prelude.Http.{conflict, internal_error, Result, ok, throw}
use mux_backend.Prelude.Rows.{RowTable}
use mux_backend.Wallets.Model.{
  Wallet, WalletStatus, suspended, same_status, can_transition_wallet_status,
}
use mux_backend.Wallets.Creation.{wallet_id}
use mux_backend.Wallets.Service.{
  State, Environment, DomainEvent, suspended_for, stored, with_status, is_suspended, update_found,
  update_wallet_status,
}

-- The transition is allowed, or the status is the one that the wallet has.
abbrev pub is_allowed : WalletStatus → WalletStatus → Bool
is_allowed from to = same_status from to || can_transition_wallet_status from to

-- The columns that a change of status writes, and that the others are kept.
pub record IsChanged (w new : Wallet) (status : WalletStatus) (reason : Option String) (now : ℕ)
    : Type 0 where
  pub id : new.id ≡ w.id
  pub status_eq : new.status ≡ status
  pub changed_at : new.status_changed_at ≡ now
  pub updated_at : new.updated_at ≡ now
  pub reason_kept : reason ≡ none → new.status_reason ≡ w.status_reason
  pub reason_given : reason ≢ none → new.status_reason ≡ reason
  pub user : new.user_id ≡ w.user_id
  pub key : new.public_key ≡ w.public_key
  pub secret : new.encrypted_secret ≡ w.encrypted_secret
  pub network : new.network ≡ w.network
  pub successor : new.successor_id ≡ w.successor_id

with_status-IsChanged :
    (w : Wallet) (status : WalletStatus) (reason : Option String) (now : ℕ)
    → IsChanged w (with_status status reason now w) status reason now
with_status-IsChanged w status reason now = record {
  id = refl;
  status_eq = refl;
  changed_at = refl;
  updated_at = refl;
  reason_kept = kept reason;
  reason_given = given reason;
  user = refl;
  key = refl;
  secret = refl;
  network = refl;
  successor = refl;
}
  where
    kept :
        (r : Option String)
        → r ≡ none
        → (with_status status r now w).status_reason ≡ w.status_reason
    kept none e = refl
    kept (some x) e = absurd (cc e)

    given : (r : Option String) → r ≢ none → (with_status status r now w).status_reason ≡ r
    given none e = absurd (e refl)
    given (some x) e = refl

abbrev announced : WalletStatus → Option String → Wallet → List DomainEvent
announced status reason w = if is_suspended status then suspended_for w reason ∷ [] else []

announced-suspended :
    (status : WalletStatus) (reason : Option String) (w : Wallet) (events : List DomainEvent)
    → (status ≡ suspended → announced status reason w ++ events ≡ suspended_for w reason ∷ events)
      × (status ≢ suspended → announced status reason w ++ events ≡ events)
announced-suspended status reason w events = (λ h. ground arith, λ h. ground arith)

module _ (W : RowTable String Wallet wallet_id) where
  -- What a change of status promises, by its outcome.
  abbrev pub Updated :
      String → WalletStatus → Option String → ℕ → State W → State W × Result Wallet → Type 0
  Updated id status reason now s (s', throw conflict) =
      (s' ≡ s)
      × (w : Wallet) × (W.find s.wallets id ≡ some w)
      × (w.status ≢ status)
      × (can_transition_wallet_status w.status status ≡ false)
  Updated id status reason now s (s', throw e) = s' ≡ s
  Updated id status reason now s (s', ok new) =
      (w : Wallet) × (W.find s.wallets id ≡ some w)
      × ((w.status ≡ status) ⊎ (can_transition_wallet_status w.status status ≡ true))
      × IsChanged w new status reason now
      × (W.find s'.wallets id ≡ some new)
      × (status ≡ suspended → s'.events ≡ suspended_for new reason ∷ s.events)
      × (status ≢ suspended → s'.events ≡ s.events)
      × ((j : String) → j ≢ id → W.find s'.wallets j ≡ W.find s.wallets j)

  allowed_cases :
      (from to : WalletStatus)
      → (is_allowed from to ≡ true)
          × ((not (same_status from to) && not (can_transition_wallet_status from to)) ≡ false)
        ⊎ (is_allowed from to ≡ false)
          × ((not (same_status from to) && not (can_transition_wallet_status from to)) ≡ true)
  allowed_cases from to = go (same_status from to) (can_transition_wallet_status from to)
    where
      go :
          (a b : Bool)
          → ((a || b) ≡ true) × ((not a && not b) ≡ false)
            ⊎ ((a || b) ≡ false) × ((not a && not b) ≡ true)
      go a b = ground arith

  allowed_iff :
      (from to : WalletStatus)
      → is_allowed from to ≡ true
      → (from ≡ to) ⊎ (can_transition_wallet_status from to ≡ true)
  allowed_iff from to h = elim (Bool-cases (same_status from to)) [
    | inl s ↦ inl (same from to s)
    | inr s ↦ inr (rw s at h)
  ]
    where
      same : (a b : WalletStatus) → same_status a b ≡ true → a ≡ b
      same a b e = ground arith

  barred :
      (from to : WalletStatus)
      → is_allowed from to ≡ false
      → (from ≢ to) × (can_transition_wallet_status from to ≡ false)
  barred from to h = elim (Bool-cases (same_status from to)) [
    | inl s ↦ absurd (open_status (rw s at h))
    | inr s ↦ (λ e. other to (sym (ap (λ t. same_status t to) e) ∙ s), rw s at h)
  ]
    where
      open_status : true ≡ false → ⊥
      open_status e = cc

      other : (t : WalletStatus) → same_status t t ≡ false → ⊥
      other t e = ground arith

  -- A change of status that returns has found the wallet, in the same status or one that may change
  -- to the new one: it is stored and returned with the new status, the time of the change and the
  -- reason, if one is given, and with its key, secret, user, network and successor kept; the other
  -- wallets are as before; and one webhook is sent for a suspension, and none for another status. A
  -- conflict means that the wallet exists and the change is not allowed; a change that throws alters
  -- nothing.
  pub update_wallet_status-outcome :
      (id : String) (status : WalletStatus) (reason : Option String) (env : Environment)
      (s : State W)
      → Updated id status reason env.now s (update_wallet_status W id status reason env s)
  unfolding update_wallet_status
  update_wallet_status-outcome id status reason env s = go (W.find s.wallets id) refl
    where
      written :
          (w : Wallet) (fails : Bool)
          → W.find s.wallets id ≡ some w
          → is_allowed w.status status ≡ true
          → let new = with_status status reason env.now w in
            Updated id status reason env.now s (
              if fails then (s, throw internal_error) else (
                stored W s
                    (W.put s.wallets new)
                    (if is_suspended status then suspended_for new reason ∷ [] else []),
                ok new,
              ))
      written w true e allowed = refl
      written w false e allowed =
          let new = with_status status reason env.now w in
          let at_id = W.key-find s.wallets id w e in
          (
            w,
            e,
            allowed_iff w.status status allowed,
            with_status-IsChanged w status reason env.now,
            subst (λ k. W.find (W.put s.wallets new) k ≡ some new) at_id (W.find-put s.wallets new),
            (announced-suspended status reason new s.events).0,
            (announced-suspended status reason new s.events).1,
            λ j n. W.find-put_ne s.wallets new j (λ p. n (p ∙ at_id)),
          )

      go :
          (o : Option Wallet)
          → W.find s.wallets id ≡ o
          → Updated id status reason env.now s (update_found W status reason env o s)
      go none e = refl
      go (some w) e = elim (allowed_cases w.status status) [
        | inr (bars, test) ↦ let (n, c) = barred w.status status bars in rw test (refl, w, e, n, c)
        | inl (fits, test) ↦ rw test (written w env.write_fails e fits)
      ]
