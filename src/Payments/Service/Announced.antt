-- ===== src/Payments/Service/Announced.antt =====
-- What sequences of updates do to one payment (payments.service.ts, update).
use mux_backend.Prelude.{
  ℕ, ◌≡◌, refl, sym, ap, ◌∙◌, ◌≢◌, inl, inr, true, some, List, [], ◌∷◌, ◌++◌, arith, Bool-cases,
}
use mux_backend.Prelude.Table.{Table}
use mux_backend.Payments.Service.{
  PaymentStatus, pending, confirmed, failed, Payment, PaymentEvent, completed_event, failed_event,
  UpdatePaymentDto, State, can_transition_payment_status, status_allowed, merged, emitted, update,
}

-- The events of a payment that goes from one status to another.
abbrev news : PaymentStatus → PaymentStatus → Payment → List PaymentEvent
news pending confirmed p = completed_event p.id p.amount p.currency p.user_id ∷ []
news pending failed p = failed_event p.id p.amount p.currency p.user_id ∷ []
news _ _ p = []

-- The columns that no update writes.
pub record Kept (p u : Payment) : Type 0 where
  pub id : u.id ≡ p.id
  pub amount : u.amount ≡ p.amount
  pub currency : u.currency ≡ p.currency
  pub asset_code : u.asset_code ≡ p.asset_code
  pub user_id : u.user_id ≡ p.user_id

Kept-trans : {p u v : Payment} → Kept p u → Kept u v → Kept p v
Kept-trans a b = record {
  id = b.id ∙ a.id;
  amount = b.amount ∙ a.amount;
  currency = b.currency ∙ a.currency;
  asset_code = b.asset_code ∙ a.asset_code;
  user_id = b.user_id ∙ a.user_id;
}

module _ (T : Table ℕ Payment) where
  pub run : State T → List (ℕ × UpdatePaymentDto) → State T
  run s [] = s
  run s ((id, dto) ∷ updates) = run (update T id dto s).0 updates

  -- What becomes of the row of an updated payment, and of the list of events.
  Story : Payment → List PaymentEvent → ℕ → State T → Type 0
  Story p before id s =
      (u : Payment) × (T.find s.rows id ≡ some u)
      × Kept p u
      × (s.events ≡ news p.status u.status p ++ before)
      × (p.status ≢ pending → u.status ≡ p.status)

  step-Story :
      (s : State T) (id : ℕ) (dto : UpdatePaymentDto) (p : Payment)
      → T.find s.rows id ≡ some p
      → Story p s.events id (update T id dto s).0
  unfolding Story update merged can_transition_payment_status
  step-Story s id dto p e = elim (Bool-cases (status_allowed p.status dto.status)) [
    | inr refused ↦ rw (e, update) (rw refused (p, e, same p, nothing p.status, λ h. refl))
    | inl allowed ↦
        rw (e, update)
          (rw allowed
            (merged p dto, T.find-put _ _ _, kept p dto, told p dto allowed, ends p dto allowed))
  ]
    where
      same : (p : Payment) → Kept p p
      same p = record {
        id = refl;
        amount = refl;
        currency = refl;
        asset_code = refl;
        user_id = refl;
      }

      kept : (p : Payment) (dto : UpdatePaymentDto) → Kept p (merged p dto)
      kept p dto = record {
        id = refl;
        amount = refl;
        currency = refl;
        asset_code = refl;
        user_id = refl;
      }

      nothing : (t : PaymentStatus) → s.events ≡ news t t p ++ s.events
      nothing t = ground arith

      told :
          (p : Payment) (dto : UpdatePaymentDto)
          → status_allowed p.status dto.status ≡ true
          → emitted (merged p dto) dto.status s.events
            ≡ news p.status (merged p dto).status p ++ s.events
      told p dto h = ground arith

      ends :
          (p : Payment) (dto : UpdatePaymentDto)
          → status_allowed p.status dto.status ≡ true
          → p.status ≢ pending
          → (merged p dto).status ≡ p.status
      ends p dto h k = ground arith

  -- Updates of one payment.
  abbrev pub on : ℕ → List UpdatePaymentDto → List (ℕ × UpdatePaymentDto)
  on id [] = []
  on id (dto ∷ dtos) = (id, dto) ∷ on id dtos

  news-Kept :
      (from to : PaymentStatus) (p u : Payment)
      → u.id ≡ p.id
      → u.amount ≡ p.amount
      → u.currency ≡ p.currency
      → u.user_id ≡ p.user_id
      → news from to u ≡ news from to p
  news-Kept from to p u i a c o = ground arith

  news-joined :
      (from middle to : PaymentStatus) (p : Payment) (before : List PaymentEvent)
      → (from ≢ pending → middle ≡ from)
      → (middle ≢ pending → to ≡ middle)
      → news middle to p ++ (news from middle p ++ before) ≡ news from to p ++ before
  news-joined from middle to p before h h' = ground arith

  news_trans :
      (p u v : Payment) (before middle after : List PaymentEvent)
      → Kept p u
      → middle ≡ news p.status u.status p ++ before
      → after ≡ news u.status v.status u ++ middle
      → (p.status ≢ pending → u.status ≡ p.status)
      → (u.status ≢ pending → v.status ≡ u.status)
      → after ≡ news p.status v.status p ++ before
  news_trans p u v before middle after k m a h h' =
      a
      ∙ ap (λ n. n ++ middle) (news-Kept u.status v.status p u k.id k.amount k.currency k.user_id)
      ∙ ap (λ l. news u.status v.status p ++ l) m
      ∙ news-joined p.status u.status v.status p before h h'

  news-none :
      (t : PaymentStatus) (p : Payment) (before : List PaymentEvent) → before ≡ news t t p ++ before
  news-none t p before = ground arith

  run-Story :
      (s : State T) (id : ℕ) (dtos : List UpdatePaymentDto) (p : Payment)
      → T.find s.rows id ≡ some p
      → Story p s.events id (run s (on id dtos))
  unfolding run Story
  run-Story s id [] p e = (
    p,
    e,
    record { id = refl; amount = refl; currency = refl; asset_code = refl; user_id = refl },
    news-none p.status p s.events,
    λ h. refl,
  )
  run-Story s id (dto ∷ dtos) p e =
      let (u, f, kept, told, final) = step-Story s id dto p e in
      let (v, g, kept', told', final') = run-Story (update T id dto s).0 id dtos u f in
      (
        v,
        g,
        Kept-trans kept kept',
        news_trans p u v _ _ _ kept told told' final final',
        λ h. final' (λ open_row. h (sym (final h) ∙ open_row)) ∙ final h,
      )

  news-ends :
      (from to : PaymentStatus) (p : Payment) (before after : List PaymentEvent)
      → after ≡ news from to p ++ before
      → (from ≢ pending → to ≡ from)
      → (from ≢ pending → after ≡ before)
        × (from ≡ pending
            → to ≡ confirmed
            → after ≡ completed_event p.id p.amount p.currency p.user_id ∷ before)
        × (from ≡ pending
            → to ≡ failed
            → after ≡ failed_event p.id p.amount p.currency p.user_id ∷ before)
        × (from ≡ pending → to ≡ pending → after ≡ before)
  news-ends from to p before after e h =
      (λ k. ground arith, λ k l. ground arith, λ k l. ground arith, λ k l. ground arith)

  -- Whatever updates of a stored payment are asked for, one after the other, the payment stays with
  -- its number, amount, currency, asset and user. A payment that is confirmed or failed keeps its
  -- status, and nothing is emitted. For a pending one exactly one event is emitted if it ends
  -- confirmed, that of its completion, and exactly one if it ends failed, that of its failure, with
  -- these values of the payment; and none if it stays pending.
  pub run_outcome :
      (s : State T) (id : ℕ) (dtos : List UpdatePaymentDto) (p : Payment)
      → T.find s.rows id ≡ some p
      → let s' = run s (on id dtos) in
        (u : Payment) × (T.find s'.rows id ≡ some u)
        × Kept p u
        × (p.status ≢ pending → (u.status ≡ p.status) × (s'.events ≡ s.events))
        × (p.status ≡ pending
            → (u.status ≡ confirmed
                → s'.events ≡ completed_event p.id p.amount p.currency p.user_id ∷ s.events)
              × (u.status ≡ failed
                  → s'.events ≡ failed_event p.id p.amount p.currency p.user_id ∷ s.events)
              × (u.status ≡ pending → s'.events ≡ s.events))
  unfolding Story
  run_outcome s id dtos p e =
      let (u, f, kept, told, final) = run-Story s id dtos p e in
      let ends = news-ends p.status u.status p s.events _ told final in
      (u, f, kept, λ h. (final h, ends.0 h), λ h. (ends.1 h, ends.2 h, ends.3 h))
