-- ===== src/Webhooks/Delivery/Outcomes.antt =====
-- What one attempt does (webhook-dispatcher.service.ts, attemptDelivery).
use mux_backend.Prelude.{
  ℕ, ◌+◌, ◌*◌, ◌^◌, ◌≤◌, ◌<◌, String, ◌≡◌, refl, ap, ◌⊎◌, inl, inr, Bool, true, false, ◌&&◌, Option,
  none, some, arith, ltb, Bool-cases,
}
use mux_backend.Prelude.Http.{Result, ok}
use mux_backend.Prelude.Table.{Table}
use mux_backend.Webhooks.Delivery.{
  DeliveryStatus, active, delivered, retrying, failed, endpoint_failed, Text, WebhookDelivery,
  WebhookEndpoint, DispatchResult, RetrySettings, is_retryable_error, is_active,
  calculate_next_retry, State, retrying_row, failed_row, delivered_row, failing_endpoint,
  succeeding_endpoint, attempt_delivery, mark_delivered, mark_endpoint_success, text_or_empty,
  update_delivery, mark_retrying, handle_delivery_failure, mark_endpoint_failure,
}

-- No answer, the status 0, or an error of the server.
abbrev pub IsRetryable : Option ℕ → Type 0
IsRetryable none = Unit {0}
IsRetryable (some n) = (n ≡ 0) ⊎ (500 ≤ n)

module _ (T : Table String WebhookDelivery) (E : Table String WebhookEndpoint) (c : RetrySettings)
    (json_stringify : Option Text → Text) where
  -- Whether a delivery that failed is tried again.
  abbrev pub will_retry : WebhookDelivery → DispatchResult → Bool
  will_retry d r = ltb (d.attempts + 1) c.max_retries && is_retryable_error r.response_status

  -- The row that an attempt leaves, its answer, and the endpoint.
  abbrev pub Sent :
      WebhookDelivery
      → WebhookEndpoint
      → State T E c json_stringify × Result DeliveryStatus
      → WebhookDelivery
      → WebhookEndpoint
      → Type 0
  Sent d e out d' e' =
      (out.1 ≡ ok d'.status)
      × (T.find out.0.deliveries d.id ≡ some d')
      × (E.find out.0.endpoints e.id ≡ some e')

  -- The rows of each branch.
  pub attempt-rows :
      (d : WebhookDelivery) (e : WebhookEndpoint) (r : DispatchResult) (now : ℕ)
      (s : State T E c json_stringify)
      → e.status ≡ active
      → T.find s.deliveries d.id ≡ some d
      → E.find s.endpoints e.id ≡ some e
      → let out = attempt_delivery T E c json_stringify d e r now s in
        (r.success ≡ true
          → Sent d e out
              (delivered_row T E c json_stringify r now d)
              (succeeding_endpoint T E c json_stringify now e))
        × (r.success ≡ false
            → will_retry d r ≡ true
            → Sent d e out
                (retrying_row T E c json_stringify
                  (d.attempts + 1)
                  (calculate_next_retry c (d.attempts + 1) now)
                  r
                  now
                  d)
                e)
        × (r.success ≡ false
            → will_retry d r ≡ false
            → Sent d e out
                (failed_row T E c json_stringify (d.attempts + 1) r now d)
                (failing_endpoint T E c json_stringify (text_or_empty r.error_message) now e))
  unfolding attempt_delivery mark_delivered mark_endpoint_success mark_retrying
      handle_delivery_failure mark_endpoint_failure
  attempt-rows d e r now s a f g =
      let b : is_active e.status ≡ true = ap is_active a in
      (
        λ h.
            rw (b, h, attempt_delivery)
              (rw (f, update_delivery)
                (rw (g, mark_endpoint_success) (refl, T.find-put _ _ _, E.find-put _ _ _))),
        λ h k. rw (b, h, k, attempt_delivery) (rw (f, update_delivery) (refl, T.find-put _ _ _, g)),
        λ h k.
            rw (b, h, k, attempt_delivery)
              (rw (f, update_delivery)
                (rw (g, mark_endpoint_failure) (refl, T.find-put _ _ _, E.find-put _ _ _))),
      )

  next_time :
      (d : WebhookDelivery) (now : ℕ)
      → calculate_next_retry c (d.attempts + 1) now ≡ now + c.retry_backoff_ms * 2 ^ d.attempts
  next_time d now = ap (λ n. now + c.retry_backoff_ms * 2 ^ n) (omega arith)

  will_retry-true :
      (d : WebhookDelivery) (r : DispatchResult)
      → d.attempts + 1 < c.max_retries
      → IsRetryable r.response_status
      → will_retry d r ≡ true
  unfolding is_retryable_error
  will_retry-true d r h k = go r.response_status k
    where
      go :
          (t : Option ℕ)
          → IsRetryable t
          → (ltb (d.attempts + 1) c.max_retries && is_retryable_error t) ≡ true
      go none k = ground arith
      go (some n) k = ground arith

  will_retry-false :
      (d : WebhookDelivery) (r : DispatchResult)
      → ¬ ((d.attempts + 1 < c.max_retries) × IsRetryable r.response_status)
      → will_retry d r ≡ false
  unfolding is_retryable_error
  will_retry-false d r h = go r.response_status h
    where
      go :
          (t : Option ℕ)
          → ¬ ((d.attempts + 1 < c.max_retries) × IsRetryable t)
          → (ltb (d.attempts + 1) c.max_retries && is_retryable_error t) ≡ false
      go none h = ground arith
      go (some n) h = ground arith

  -- The rows that an attempt leaves and its answer, by what the request came to.
  abbrev pub Attempted :
      WebhookDelivery
      → WebhookEndpoint
      → DispatchResult
      → ℕ
      → State T E c json_stringify × Result DeliveryStatus
      → Type 0
  Attempted d e r now out =
      (d' : WebhookDelivery) × (e' : WebhookEndpoint) × (T.find out.0.deliveries d.id ≡ some d')
      × (E.find out.0.endpoints e.id ≡ some e')
      × (out.1 ≡ ok d'.status)
      × (r.success ≡ true
          → (d'.status ≡ delivered)
            × (d'.delivered_at ≡ some now)
            × (d'.attempts ≡ d.attempts)
            × (e'.consecutive_failures ≡ 0)
            × (e'.last_success_at ≡ some now)
            × (e'.status ≡ active))
      × (r.success ≡ false
          → d.attempts + 1 < c.max_retries
          → IsRetryable r.response_status
          → (d'.status ≡ retrying)
            × (d'.attempts ≡ d.attempts + 1)
            × (d'.next_retry_at ≡ some (now + c.retry_backoff_ms * 2 ^ d.attempts))
            × (e' ≡ e))
      × (r.success ≡ false
          → ¬ ((d.attempts + 1 < c.max_retries) × IsRetryable r.response_status)
          → (d'.status ≡ failed)
            × (d'.attempts ≡ d.attempts + 1)
            × (e'.consecutive_failures ≡ e.consecutive_failures + 1)
            × (e'.last_failure_at ≡ some now)
            × (c.max_consecutive_failures ≤ e.consecutive_failures + 1
                → e'.status ≡ endpoint_failed)
            × (e.consecutive_failures + 1 < c.max_consecutive_failures → e'.status ≡ active))

  clash : {b : Bool} → b ≡ true → b ≡ false → ⊥
  clash e f = cc

  -- An attempt on a stored delivery to a stored active endpoint answers with the status that it
  -- writes. A success marks the delivery delivered and resets the failures of the endpoint. Otherwise,
  -- with fewer attempts than the maximum even after this one, and an answer that is missing, of
  -- status 0, or at least 500, the attempt is counted and the next one scheduled after the delay,
  -- which doubles with each attempt, and the endpoint is as before. In every other case the attempt is
  -- counted, the delivery has failed, and so has the endpoint once more: its status becomes failed
  -- when its consecutive failures reach the maximum, and else is as it was.
  pub attempt_cases :
      (d : WebhookDelivery) (e : WebhookEndpoint) (r : DispatchResult) (now : ℕ)
      (s : State T E c json_stringify)
      → e.status ≡ active
      → T.find s.deliveries d.id ≡ some d
      → E.find s.endpoints e.id ≡ some e
      → Attempted d e r now (attempt_delivery T E c json_stringify d e r now s)
  attempt_cases d e r now s a f g =
      let rows = attempt-rows d e r now s a f g in
      elim (Bool-cases r.success) [
        | inl good ↦
            let (answer, found, endpoint_found) = rows.0 good in
            (
              delivered_row T E c json_stringify r now d,
              succeeding_endpoint T E c json_stringify now e,
              found,
              endpoint_found,
              answer,
              λ h. (refl, refl, refl, refl, refl, a),
              λ h. absurd (clash good h),
              λ h. absurd (clash good h),
            )
        | inr bad ↦ elim (Bool-cases (will_retry d r)) [
          | inl more ↦
              let (answer, found, endpoint_found) = rows.1 bad more in
              (
                retrying_row T E c json_stringify (d.attempts + 1)
                    (calculate_next_retry c (d.attempts + 1) now) r now d,
                e,
                found,
                endpoint_found,
                answer,
                λ h. absurd (clash h bad),
                λ h l k. (refl, refl, ap some (next_time d now), refl),
                λ h k. absurd (clash more (will_retry-false d r k)),
              )
          | inr last ↦
              let (answer, found, endpoint_found) = rows.2 bad last in
              (
                failed_row T E c json_stringify (d.attempts + 1) r now d,
                failing_endpoint T E c json_stringify (text_or_empty r.error_message) now e,
                found,
                endpoint_found,
                answer,
                λ h. absurd (clash h bad),
                λ h l k. absurd (clash (will_retry-true d r l k) last),
                λ h k. (refl, refl, refl, refl, λ l. ground arith, λ l. ground arith),
              )
        ]
      ]
