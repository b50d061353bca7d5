-- ===== src/Tests/Webhooks.antt =====
-- Examples for the delivery of webhooks.
use mux_backend.Prelude.{
  ◌-◌, ◌≤◌, String, ◌≡◌, refl, true, false, Option, none, some, List, [], ◌∷◌,
}
use mux_backend.Prelude.Table.{Table, function_table}
use mux_backend.Webhooks.Delivery.{
  pending, active, Text, WebhookDelivery, WebhookEndpoint, DispatchResult, RetrySettings, State,
  attempt_delivery,
}
use mux_backend.Webhooks.Delivery.Outcomes.{Attempted, attempt_cases}
use mux_backend.Webhooks.Delivery.Rounds.{Round, requests, requests-le}
use mux_backend.Tests.Data.{string_discrete}

abbrev delivery : WebhookDelivery
delivery = record {
  id = "d1";
  endpoint_id = "e1";
  event_id = "v1";
  event_type = "wallet.created";
  payload = "{}";
  status = pending;
  attempts = 0;
  max_attempts = 2;
  next_retry_at = none;
  response_status = none;
  response_body = none;
  response_time = none;
  first_attempt_at = none;
  last_attempt_at = none;
  delivered_at = none;
  error_message = none;
}

abbrev endpoint : WebhookEndpoint
endpoint = record {
  id = "e1";
  project_id = "p1";
  url = "https://example.com";
  secret = "s";
  events = "wallet.created" ∷ [];
  status = active;
  consecutive_failures = 0;
  last_failure_at = none;
  last_failure_reason = none;
  last_success_at = none;
}

abbrev deliveries : Table String WebhookDelivery
deliveries = function_table string_discrete

abbrev endpoints : Table String WebhookEndpoint
endpoints = function_table string_discrete

abbrev settings : RetrySettings
settings = record { max_retries = 2; retry_backoff_ms = 1000; max_consecutive_failures = 10 }

abbrev stringify : Option Text → Text
stringify none = []
stringify (some t) = t

abbrev state : State deliveries endpoints settings stringify
state = record {
  deliveries = λ k. some delivery;
  endpoints = λ k. some endpoint;
  counters = record { delivered_success = 0; delivered_failure = 0; retries = 0; dead_letters = 0 };
}

abbrev unavailable : DispatchResult
unavailable = record {
  success = false;
  response_status = some 503;
  response_body = none;
  response_time = 20;
  error_message = none;
}

abbrev accepted : DispatchResult
accepted = record unavailable { success = true; response_status = some 200 }

attempt_cases_example :
    Attempted deliveries endpoints settings stringify delivery endpoint unavailable 5 (
      attempt_delivery deliveries endpoints settings stringify delivery endpoint unavailable 5
        state)
attempt_cases_example =
    attempt_cases deliveries endpoints settings stringify delivery endpoint unavailable 5 state refl
      refl refl

-- The first request fails, and the second one, after the delay, succeeds.
abbrev two_rounds : List Round
two_rounds =
    record { now = 5; reply = unavailable }
    ∷ record { now = 2000; reply = accepted }
    ∷ record { now = 3000; reply = accepted }
    ∷ []

requests-le_example :
    (requests deliveries endpoints settings stringify "d1" "e1" two_rounds state ≤ 2 - 0)
    × (false ≡ true
        → requests deliveries endpoints settings stringify "d1" "e1" two_rounds state ≡ 0)
requests-le_example =
    requests-le deliveries endpoints settings stringify delivery endpoint two_rounds state refl refl
