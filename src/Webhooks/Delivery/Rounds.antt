-- ===== src/Webhooks/Delivery/Rounds.antt =====
-- What many rounds of processDeliveries do to one delivery (webhook-dispatcher.service.ts).
use mux_backend.Prelude.{
  ℕ, ◌+◌, ◌-◌, ◌≤◌, ◌<◌, String, ◌≡◌, refl, sym, subst, ◌≢◌, inl, inr, Bool, true, false, Option,
  none, some, List, [], ◌∷◌, arith, if◌then◌else◌, Bool-cases,
}
use mux_backend.Prelude.Table.{Table}
use mux_backend.Webhooks.Delivery.{
  DeliveryStatus, delivered, failed, retrying, EndpointStatus, active, Text, WebhookDelivery,
  WebhookEndpoint, DispatchResult, RetrySettings, is_active, calculate_next_retry, State,
  retrying_row, failed_row, delivered_row, failing_endpoint, succeeding_endpoint, attempt_delivery,
  text_or_empty, is_due,
}
use mux_backend.Webhooks.Delivery.Outcomes.{will_retry, attempt-rows}

-- When a round runs, and what the request of the delivery comes to if it is sent.
pub record Round : Type 0 where
  pub now : ℕ
  pub reply : DispatchResult

abbrev pub is_final : DeliveryStatus → Bool
is_final delivered = true
is_final failed = true
is_final _ = false

module _ (T : Table String WebhookDelivery) (E : Table String WebhookEndpoint) (c : RetrySettings)
    (json_stringify : Option Text → Text) where
  -- The state after a round, and the number of requests that were sent for the delivery. A delivery
  -- of an endpoint that is not active is not sent.
  abbrev pub attempted :
      Round
      → WebhookDelivery
      → WebhookEndpoint
      → State T E c json_stringify
      → State T E c json_stringify × ℕ
  attempted q d e s =
      if is_due T E c json_stringify q.now d
      then (
        (attempt_delivery T E c json_stringify d e q.reply q.now s).0,
        if is_active e.status then 1 else 0,
      )
      else (s, 0)

  unfoldable pub round :
      String → String → Round → State T E c json_stringify → State T E c json_stringify × ℕ
  round id endpoint_id q s = elim (T.find s.deliveries id) [
    | none ↦ (s, 0)
    | some d ↦ elim (E.find s.endpoints endpoint_id) [ none ↦ (s, 0) | some e ↦ attempted q d e s ]
  ]

  pub requests : String → String → List Round → State T E c json_stringify → ℕ
  requests id endpoint_id [] s = 0
  requests id endpoint_id (q ∷ qs) s =
      let (s', n) = round id endpoint_id q s in n + requests id endpoint_id qs s'

  -- How many requests can still be sent for a delivery.
  abbrev pub left : WebhookDelivery → ℕ
  left d = if is_final d.status then 0 else c.max_retries - d.attempts

  -- A delivery that is neither delivered nor failed has attempts left, and the time of its next one if
  -- it has been tried.
  abbrev pub IsLive : WebhookDelivery → Type 0
  IsLive d =
      is_final d.status ≡ false
      → (d.attempts < c.max_retries) × (d.status ≡ retrying → d.next_retry_at ≢ none)

  -- The delivery and the endpoint after a round that sent n requests.
  pub record Next (id endpoint_id : String) (d : WebhookDelivery)
      (out : State T E c json_stringify × ℕ) : Type 0 where
    pub row : WebhookDelivery
    pub endpoint : WebhookEndpoint
    pub row_id : row.id ≡ id
    pub endpoint_id_eq : endpoint.id ≡ endpoint_id
    pub found : T.find out.0.deliveries id ≡ some row
    pub endpoint_found : E.find out.0.endpoints endpoint_id ≡ some endpoint
    pub less : out.1 + left row ≤ left d
    pub live : IsLive d → IsLive row

  pub due-left :
      (now : ℕ) (d : WebhookDelivery)
      → is_due T E c json_stringify now d ≡ true
      → (is_final d.status ≡ false) × (d.attempts < c.max_retries)
  unfolding is_due
  due-left now d h = ground arith

  inactive-keeps :
      (d : WebhookDelivery) (e : WebhookEndpoint) (q : Round) (s : State T E c json_stringify)
      → is_active e.status ≡ false
      → (attempt_delivery T E c json_stringify d e q.reply q.now s).0 ≡ s
  unfolding attempt_delivery
  inactive-keeps d e q s h = rw (h, attempt_delivery)

  active_of : (t : EndpointStatus) → is_active t ≡ true → t ≡ active
  active_of t h = ground arith

  attempted-Next :
      (d : WebhookDelivery) (e : WebhookEndpoint) (q : Round) (s : State T E c json_stringify)
      → T.find s.deliveries d.id ≡ some d
      → E.find s.endpoints e.id ≡ some e
      → Next d.id e.id d (attempted q d e s)
  attempted-Next d e q s f g = elim (Bool-cases (is_due T E c json_stringify q.now d)) [
    | inr early ↦
        rw (early, attempted)
          (record {
            row = d;
            endpoint = e;
            row_id = refl;
            endpoint_id_eq = refl;
            found = f;
            endpoint_found = g;
            less = omega arith;
            live = λ l. l;
          })
    | inl due ↦ elim (Bool-cases (is_active e.status)) [
      | inr off ↦
          rw (due, off, inactive-keeps d e q s off, attempted)
            (record {
              row = d;
              endpoint = e;
              row_id = refl;
              endpoint_id_eq = refl;
              found = f;
              endpoint_found = g;
              less = omega arith;
              live = λ l. l;
            })
      | inl on ↦ rw (due, on, attempted) (sent d e q s f g on (due-left q.now d due))
    ]
  ]
    where
      closed : true ≡ false → ⊥
      closed e = cc

      timed : {at : ℕ} → ◌≡◌ {A = Option ℕ} (some at) none → ⊥
      timed e = cc

      more_left :
          (d : WebhookDelivery) (r : DispatchResult)
          → will_retry T E c json_stringify d r ≡ true
          → d.attempts + 1 < c.max_retries
      more_left d r h = ground arith

      sent :
          (d : WebhookDelivery) (e : WebhookEndpoint) (q : Round) (s : State T E c json_stringify)
          → T.find s.deliveries d.id ≡ some d
          → E.find s.endpoints e.id ≡ some e
          → is_active e.status ≡ true
          → (is_final d.status ≡ false) × (d.attempts < c.max_retries)
          → Next d.id e.id d ((attempt_delivery T E c json_stringify d e q.reply q.now s).0, 1)
      sent d e q s f g on room =
          let cases =
            attempt-rows T E c json_stringify d e q.reply q.now s (active_of e.status on) f g in
          elim (Bool-cases q.reply.success) [
            | inl good ↦
                let h = cases.0 good in
                record {
                  row = delivered_row T E c json_stringify q.reply q.now d;
                  endpoint = succeeding_endpoint T E c json_stringify q.now e;
                  row_id = refl;
                  endpoint_id_eq = refl;
                  found = h.1;
                  endpoint_found = h.2;
                  less = ground arith;
                  live = λ l h. absurd (closed h);
                }
            | inr bad ↦ elim (Bool-cases (will_retry T E c json_stringify d q.reply)) [
              | inl more ↦
                  let h = cases.1 bad more in
                  record {
                    row =
                        retrying_row T E c json_stringify (d.attempts + 1)
                          (calculate_next_retry c (d.attempts + 1) q.now) q.reply q.now d;
                    endpoint = e;
                    row_id = refl;
                    endpoint_id_eq = refl;
                    found = h.1;
                    endpoint_found = h.2;
                    less = ground arith;
                    live = λ l h. (more_left d q.reply more, λ k n. timed n);
                  }
              | inr last ↦
                  let h = cases.2 bad last in
                  record {
                    row = failed_row T E c json_stringify (d.attempts + 1) q.reply q.now d;
                    endpoint =
                        failing_endpoint T E c json_stringify (text_or_empty q.reply.error_message)
                          q.now e;
                    row_id = refl;
                    endpoint_id_eq = refl;
                    found = h.1;
                    endpoint_found = h.2;
                    less = ground arith;
                    live = λ l h. absurd (closed h);
                  }
            ]
          ]

  pub round-Next :
      (id endpoint_id : String) (d : WebhookDelivery) (e : WebhookEndpoint) (q : Round)
      (s : State T E c json_stringify)
      → d.id ≡ id
      → e.id ≡ endpoint_id
      → T.find s.deliveries id ≡ some d
      → E.find s.endpoints endpoint_id ≡ some e
      → Next id endpoint_id d (round id endpoint_id q s)
  unfolding round
  round-Next id endpoint_id d e q s i j f g =
      rw (f, round)
        (rw (g, round)
          (subst (λ x. Next x endpoint_id d (attempted q d e s)) i
            (subst (λ y. Next d.id y d (attempted q d e s)) j
              (attempted-Next d e q s (subst (λ x. T.find s.deliveries x ≡ some d) (sym i) f)
                (subst (λ y. E.find s.endpoints y ≡ some e) (sym j) g)))))

  requests-le_left :
      (id endpoint_id : String) (qs : List Round) (d : WebhookDelivery) (e : WebhookEndpoint)
      (s : State T E c json_stringify)
      → d.id ≡ id
      → e.id ≡ endpoint_id
      → T.find s.deliveries id ≡ some d
      → E.find s.endpoints endpoint_id ≡ some e
      → requests id endpoint_id qs s ≤ left d
  unfolding requests
  requests-le_left id endpoint_id [] d e s i j f g = omega arith
  requests-le_left id endpoint_id (q ∷ qs) d e s i j f g =
      let next = round-Next id endpoint_id d e q s i j f g in
      let rest =
        requests-le_left id endpoint_id qs next.row next.endpoint (round id endpoint_id q s).0
          next.row_id next.endpoint_id_eq next.found next.endpoint_found in
      let less = next.less in omega arith

  -- However many rounds are run, at whatever times, a stored delivery is sent at most as often as
  -- retries are configured, less the attempts that it has made; and not at all once it is delivered
  -- or failed.
  pub requests-le :
      (d : WebhookDelivery) (e : WebhookEndpoint) (qs : List Round) (s : State T E c json_stringify)
      → T.find s.deliveries d.id ≡ some d
      → E.find s.endpoints e.id ≡ some e
      → (requests d.id e.id qs s ≤ c.max_retries - d.attempts)
        × (is_final d.status ≡ true → requests d.id e.id qs s ≡ 0)
  requests-le d e qs s f g =
      let h = requests-le_left d.id e.id qs d e s refl refl f g in
      (ground arith, λ final. ground arith)
