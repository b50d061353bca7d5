-- ===== src/Webhooks/Delivery/Settling.antt =====
-- A delivery that is served in every round comes to an end (webhook-dispatcher.service.ts).
use mux_backend.Prelude.{ℕ, ◌≤◌, String, ◌≡◌, true, false, Option, some, List, [], ◌∷◌}
use mux_backend.Prelude.Table.{Table}
use mux_backend.Webhooks.Delivery.{
  active, WebhookDelivery, WebhookEndpoint, RetrySettings, Text, State,
}
use mux_backend.Webhooks.Delivery.Rounds.{Round, is_final, round}

module _ (T : Table String WebhookDelivery) (E : Table String WebhookEndpoint) (c : RetrySettings)
    (json_stringify : Option Text → Text) where
  -- The round comes when the endpoint is active, and not before the time that the delivery has for
  -- its next attempt, if it has one.
  abbrev pub IsServed : WebhookDelivery → WebhookEndpoint → Round → Type 0
  IsServed d e q = (e.status ≡ active) × ((at : ℕ) → d.next_retry_at ≡ some at → at ≤ q.now)

  unfoldable pub AllServed : String → String → List Round → State T E c json_stringify → Type 0
  AllServed id endpoint_id [] s = Unit {0}
  AllServed id endpoint_id (q ∷ qs) s =
      ((d : WebhookDelivery) (e : WebhookEndpoint)
        → T.find s.deliveries id ≡ some d
        → E.find s.endpoints endpoint_id ≡ some e
        → is_final d.status ≡ false
        → IsServed d e q)
      × AllServed id endpoint_id qs (round T E c json_stringify id endpoint_id q s).0

  unfoldable pub run_rounds :
      String → String → List Round → State T E c json_stringify → State T E c json_stringify
  run_rounds id endpoint_id [] s = s
  run_rounds id endpoint_id (q ∷ qs) s =
      run_rounds id endpoint_id qs (round T E c json_stringify id endpoint_id q s).0

  -- The delivery is stored with a final status.
  abbrev pub Settled : String → State T E c json_stringify → Type 0
  Settled id s =
      (d : WebhookDelivery) × (T.find s.deliveries id ≡ some d) × (is_final d.status ≡ true)
