-- ===== src/Webhooks/Delivery.antt =====
-- The delivery of webhooks: src/webhooks/webhook-retry.service.ts, and processDeliveries,
-- attemptDelivery and markDelivered of src/webhooks/webhook-dispatcher.service.ts. What the HTTP
-- request of a delivery came to is an argument. A text that is cut is the list of its UTF-16 units;
-- JSON.stringify of a response body is an argument. The histogram, log lines and the columns
-- createdAt and updatedAt are left out.
pub mod Outcomes
pub mod Rounds
pub mod Settling
use mux_backend.Prelude.{
  ℕ, ◌+◌, ◌-◌, ◌*◌, ◌^◌, String, Bool, true, false, not, ◌&&◌, ◌||◌, Option, none, some, List, [],
  ◌∷◌, ltb, leb, ◌==◌, if◌then◌else◌,
}
use mux_backend.Prelude.Http.{internal_error, Result, ok, throw, Handler, ◌>>=◌, ◌>>◌, return}
use mux_backend.Prelude.{take}
use mux_backend.Prelude.Table.{Table}

pub data DeliveryStatus : Type 0 where
  pending delivered failed retrying : DeliveryStatus

pub data EndpointStatus : Type 0 where
  active disabled endpoint_failed : EndpointStatus

abbrev pub Text : Type 0
Text = List ℕ

pub record WebhookDelivery : Type 0 where
  pub id : String
  pub endpoint_id : String
  pub event_id : String
  pub event_type : String
  pub payload : String
  pub status : DeliveryStatus
  pub attempts : ℕ
  pub max_attempts : ℕ
  pub next_retry_at : Option ℕ
  pub response_status : Option ℕ
  pub response_body : Option Text
  pub response_time : Option ℕ
  pub first_attempt_at : Option ℕ
  pub last_attempt_at : Option ℕ
  pub delivered_at : Option ℕ
  pub error_message : Option Text

pub record WebhookEndpoint : Type 0 where
  pub id : String
  pub project_id : String
  pub url : String
  pub secret : String
  pub events : List String
  pub status : EndpointStatus
  pub consecutive_failures : ℕ
  pub last_failure_at : Option ℕ
  pub last_failure_reason : Option Text
  pub last_success_at : Option ℕ

pub record DispatchResult : Type 0 where
  pub success : Bool
  pub response_status : Option ℕ
  pub response_body : Option Text
  pub response_time : ℕ
  pub error_message : Option Text

-- The settings that WebhookRetryService reads.
pub record RetrySettings : Type 0 where
  pub max_retries : ℕ
  pub retry_backoff_ms : ℕ
  pub max_consecutive_failures : ℕ

-- The counters webhooks_delivered_total (by result), webhooks_retry_total and
-- webhooks_dead_letter_total.
pub record Counters : Type 0 where
  pub delivered_success : ℕ
  pub delivered_failure : ℕ
  pub retries : ℕ
  pub dead_letters : ℕ

-- calculateNextRetry
abbrev pub calculate_next_retry : RetrySettings → ℕ → ℕ → ℕ
calculate_next_retry c attempt_number now = now + c.retry_backoff_ms * 2 ^ (attempt_number - 1)

-- isRetryableError of webhook-dispatch.service.ts, at the error that attemptDelivery makes of a
-- dispatch result: it has the empty code, and the status of the response.
unfoldable pub is_retryable_error : Option ℕ → Bool
is_retryable_error none = true
is_retryable_error (some n) = n == 0 || leb 500 n

abbrev pub is_active : EndpointStatus → Bool
is_active active = true
is_active _ = false

-- `text || ''`
abbrev pub text_or_empty : Option Text → Text
text_or_empty none = []
text_or_empty (some t) = t

module _ (T : Table String WebhookDelivery) (E : Table String WebhookEndpoint) (c : RetrySettings)
    (json_stringify : Option Text → Text) where
  pub record State : Type 0 where
    pub deliveries : T.Rows
    pub endpoints : E.Rows
    pub counters : Counters

  abbrev pub count : (Counters → Counters) → Handler State (Unit {0})
  count f s = (record s { counters = f s.counters }, ok tt)

  -- prisma.webhookDelivery.update, which throws where there is no such row.
  abbrev pub update_delivery :
      String → (WebhookDelivery → WebhookDelivery) → Handler State (Unit {0})
  update_delivery id f s = elim (T.find s.deliveries id) [
    | none ↦ (s, throw internal_error)
    | some d ↦ (record s { deliveries = T.put s.deliveries id (f d) }, ok tt)
  ]

  abbrev pub retrying_row : ℕ → ℕ → DispatchResult → ℕ → WebhookDelivery → WebhookDelivery
  retrying_row attempts next_retry_at r now d = record d {
    status = retrying;
    attempts = attempts;
    next_retry_at = some next_retry_at;
    last_attempt_at = some now;
    first_attempt_at = if attempts == 1 then some now else d.first_attempt_at;
    response_status = elim r.response_status [ none ↦ d.response_status | some n ↦ some n ];
    response_body = some (take 1000 (text_or_empty r.response_body));
    response_time = some r.response_time;
    error_message = some (take 500 (text_or_empty r.error_message));
  }

  abbrev pub failed_row : ℕ → DispatchResult → ℕ → WebhookDelivery → WebhookDelivery
  failed_row attempts r now d = record d {
    status = failed;
    attempts = attempts;
    last_attempt_at = some now;
    response_status = elim r.response_status [ none ↦ d.response_status | some n ↦ some n ];
    response_body = some (take 1000 (text_or_empty r.response_body));
    response_time = some r.response_time;
    error_message = some (take 500 (text_or_empty r.error_message));
  }

  abbrev pub delivered_row : DispatchResult → ℕ → WebhookDelivery → WebhookDelivery
  delivered_row r now d = record d {
    status = delivered;
    delivered_at = some now;
    last_attempt_at = some now;
    response_status = elim r.response_status [ none ↦ d.response_status | some n ↦ some n ];
    response_body = some (take 1000 (json_stringify r.response_body));
    response_time = some r.response_time;
  }

  -- markEndpointFailure: what it writes to a row.
  abbrev pub failing_endpoint : Text → ℕ → WebhookEndpoint → WebhookEndpoint
  failing_endpoint reason now e = record e {
    consecutive_failures = e.consecutive_failures + 1;
    last_failure_at = some now;
    last_failure_reason = some (take 500 reason);
    status =
        if leb c.max_consecutive_failures (e.consecutive_failures + 1)
        then endpoint_failed
        else e.status;
  }

  abbrev pub succeeding_endpoint : ℕ → WebhookEndpoint → WebhookEndpoint
  succeeding_endpoint now e = record e { consecutive_failures = 0; last_success_at = some now }

  unfoldable pub mark_retrying : String → ℕ → ℕ → DispatchResult → ℕ → Handler State (Unit {0})
  mark_retrying id attempts next_retry_at r now = do
    update_delivery id (retrying_row attempts next_retry_at r now)
    count (λ n. record n { retries = n.retries + 1 })

  unfoldable pub mark_endpoint_failure : String → Text → ℕ → Handler State (Unit {0})
  mark_endpoint_failure id reason now s = elim (E.find s.endpoints id) [
    | none ↦ (s, ok tt)
    | some e ↦
        (record s { endpoints = E.put s.endpoints id (failing_endpoint reason now e) }, ok tt)
  ]

  unfoldable pub mark_endpoint_success : String → ℕ → Handler State (Unit {0})
  mark_endpoint_success id now s = elim (E.find s.endpoints id) [
    | none ↦ (s, throw internal_error)
    | some e ↦ (record s { endpoints = E.put s.endpoints id (succeeding_endpoint now e) }, ok tt)
  ]

  unfoldable pub handle_delivery_failure :
      String → String → ℕ → DispatchResult → ℕ → Handler State (Unit {0})
  unfolding mark_endpoint_failure
  handle_delivery_failure id endpoint_id attempts r now = do
    update_delivery id (failed_row attempts r now)
    count (λ n. record n { delivered_failure = n.delivered_failure + 1 })
    mark_endpoint_failure endpoint_id (text_or_empty r.error_message) now
    count (λ n. record n {
      dead_letters = if leb c.max_retries attempts then n.dead_letters + 1 else n.dead_letters;
    })

  unfoldable pub mark_delivered : String → DispatchResult → ℕ → Handler State (Unit {0})
  mark_delivered id r now = update_delivery id (delivered_row r now)

  -- The three branches behind the request.
  abbrev pub after_success :
      WebhookDelivery → WebhookEndpoint → DispatchResult → ℕ → Handler State DeliveryStatus
  unfolding mark_delivered mark_endpoint_success
  after_success d e r now = do
    mark_delivered d.id r now
    mark_endpoint_success e.id now
    count (λ n. record n { delivered_success = n.delivered_success + 1 })
    return delivered

  abbrev pub after_retryable : WebhookDelivery → DispatchResult → ℕ → Handler State DeliveryStatus
  unfolding mark_retrying
  after_retryable d r now = do
    mark_retrying d.id (d.attempts + 1) (calculate_next_retry c (d.attempts + 1) now) r now
    return retrying

  abbrev pub after_failure :
      WebhookDelivery → WebhookEndpoint → DispatchResult → ℕ → Handler State DeliveryStatus
  unfolding handle_delivery_failure
  after_failure d e r now = do
    handle_delivery_failure d.id e.id (d.attempts + 1) r now
    return failed

  -- attemptDelivery, for a delivery and its endpoint as the batch has read them.
  unfoldable pub attempt_delivery :
      WebhookDelivery → WebhookEndpoint → DispatchResult → ℕ → Handler State DeliveryStatus
  attempt_delivery d e r now =
      if not (is_active e.status)
      then return failed
      else (if r.success
          then after_success d e r now
          else (if ltb (d.attempts + 1) c.max_retries && is_retryable_error r.response_status
              then after_retryable d r now
              else after_failure d e r now))

  -- The counts that processDeliveries returns.
  pub record Processed : Type 0 where
    pub delivered_count : ℕ
    pub failed_count : ℕ
    pub retrying_count : ℕ

  abbrev tally : Result DeliveryStatus → Processed → Processed
  tally (ok delivered) n = record n { delivered_count = n.delivered_count + 1 }
  tally (ok failed) n = record n { failed_count = n.failed_count + 1 }
  tally (ok retrying) n = record n { retrying_count = n.retrying_count + 1 }
  tally (ok pending) n = n
  tally (throw e) n = record n { failed_count = n.failed_count + 1 }

  -- The loop of processDeliveries over the deliveries that were read, with their endpoints.
  unfoldable pub process_batch :
      (WebhookDelivery → DispatchResult)
      → ℕ
      → List (WebhookDelivery × WebhookEndpoint)
      → State
      → Processed
      → State × Processed
  process_batch dispatch now [] s n = (s, n)
  process_batch dispatch now ((d, e) ∷ batch) s n =
      let (s', r) = attempt_delivery d e (dispatch d) now s in
      process_batch dispatch now batch s' (tally r n)

  -- The condition of the query for the deliveries to attempt.
  unfoldable pub is_due : ℕ → WebhookDelivery → Bool
  is_due now d = ltb d.attempts c.max_retries && elim d.status [
    | pending ↦ true
    | retrying ↦ elim d.next_retry_at [ none ↦ false | some at ↦ leb at now ]
    | delivered ↦ false
    | failed ↦ false
  ]
