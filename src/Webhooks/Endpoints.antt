-- ===== src/Webhooks/Endpoints.antt =====
-- src/webhooks/webhook.service.ts: the endpoints behind their cache, and the requeueing of a delivery
-- that was given up. The cache key `webhook:endpoint:${id}` is the identifier. The secret, the clock
-- and the identifier of a new row are arguments; log lines are left out, as are the pages of endpoints
-- and deliveries and the columns description, createdAt and updatedAt.
pub mod Cached
use mux_backend.Prelude.{
  ℕ, String, Bool, true, false, not, ◌&&◌, ◌||◌, Option, none, some, List, [], ◌∷◌, if◌then◌else◌,
  str_eq,
}
use mux_backend.Prelude.Http.{bad_request, not_found, internal_error, Result, ok, throw, Handler}
use mux_backend.Prelude.Table.{Table}
use mux_backend.Common.Cache
use mux_backend.Common.Cache.{CacheMap}
use mux_backend.Webhooks.Delivery.{
  WebhookDelivery, WebhookEndpoint, EndpointStatus, active, DeliveryStatus, pending, failed,
}

abbrev pub webhook_cache_ttl : ℕ
webhook_cache_ttl = 60000

-- Object.values(WebhookEventType)
abbrev pub webhook_event_types : List String
webhook_event_types =
    "wallet.created" ∷ "wallet.activated" ∷ "wallet.suspended" ∷ "wallet.rotated"
    ∷ "transaction.created" ∷ "transaction.pending" ∷ "transaction.confirmed" ∷ "transaction.failed"
    ∷ "balance.updated" ∷ "balance.low" ∷ "balance.mismatch" ∷ "user.created" ∷ "user.updated"
    ∷ "auth.user_authenticated" ∷ "auth.new_user_registered" ∷ "auth.authentication_failed" ∷ []

abbrev pub has_text : String → List String → Bool
has_text s [] = false
has_text s (t ∷ ts) = str_eq s t || has_text s ts

unfoldable pub all_known : List String → Bool
all_known [] = true
all_known (e ∷ es) = has_text e webhook_event_types && all_known es

pub record CreateWebhookEndpointRequest : Type 0 where
  pub project_id : String
  pub url : String
  pub events : List String

pub record UpdateWebhookEndpointRequest : Type 0 where
  pub url : Option String
  pub events : Option (List String)
  pub status : Option EndpointStatus

abbrev pub given {ℓ} : {A : Type ℓ} → A → Option A → A
given old none = old
given old (some new) = new

abbrev pub new_endpoint : CreateWebhookEndpointRequest → String → String → WebhookEndpoint
new_endpoint q id secret = record {
  id = id;
  project_id = q.project_id;
  url = q.url;
  secret = secret;
  events = q.events;
  status = active;
  consecutive_failures = 0;
  last_failure_at = none;
  last_failure_reason = none;
  last_success_at = none;
}

abbrev pub with_updates : UpdateWebhookEndpointRequest → WebhookEndpoint → WebhookEndpoint
with_updates u e = record e {
  url = given e.url u.url;
  events = given e.events u.events;
  status = given e.status u.status;
}

abbrev pub with_events : List String → WebhookEndpoint → WebhookEndpoint
with_events events e = record e { events = events }

abbrev pub with_secret : String → WebhookEndpoint → WebhookEndpoint
with_secret secret e = record e { secret = secret }

abbrev pub is_failed : DeliveryStatus → Bool
is_failed failed = true
is_failed _ = false

abbrev pub requeued : WebhookDelivery → WebhookDelivery
requeued d = record d { status = pending; attempts = 0; next_retry_at = none }

module _ (E : Table String WebhookEndpoint) (same : Discrete String) where
  pub record State : Type 0 where
    pub endpoints : E.Rows
    pub cache : CacheMap String WebhookEndpoint

  abbrev pub create_at :
      Option WebhookEndpoint → WebhookEndpoint → String → Handler State WebhookEndpoint
  create_at none e id s = (record s { endpoints = E.put s.endpoints id e }, ok e)
  create_at (some taken) e id s = (s, throw internal_error)

  -- An identifier that is taken violates the primary key.
  unfoldable pub create_endpoint :
      CreateWebhookEndpointRequest → String → String → Handler State WebhookEndpoint
  create_endpoint q id secret s = create_at (E.find s.endpoints id) (new_endpoint q id secret) id s

  abbrev pub read_through :
      String
      → ℕ
      → E.Rows
      → CacheMap String WebhookEndpoint
      → Option WebhookEndpoint
      → State × Result WebhookEndpoint
  read_through id now rows cache none =
      (record { endpoints = rows; cache = cache }, throw not_found)
  read_through id now rows cache (some e) =
      (record { endpoints = rows; cache = Cache.set same id e webhook_cache_ttl now cache }, ok e)

  abbrev pub served :
      String
      → ℕ
      → E.Rows
      → Option WebhookEndpoint × CacheMap String WebhookEndpoint
      → State × Result WebhookEndpoint
  served id now rows (some e, cache) = (record { endpoints = rows; cache = cache }, ok e)
  served id now rows (none, cache) = read_through id now rows cache (E.find rows id)

  unfoldable pub get_endpoint : String → ℕ → Handler State WebhookEndpoint
  get_endpoint id now s = served id now s.endpoints (Cache.get same id now s.cache)

  -- `update` of one row, which throws where there is none, and the invalidation of its entry.
  abbrev pub change_found :
      String
      → (WebhookEndpoint → WebhookEndpoint)
      → Option WebhookEndpoint
      → Handler State WebhookEndpoint
  change_found id f none s = (s, throw internal_error)
  change_found id f (some e) s = (
    record { endpoints = E.put s.endpoints id (f e); cache = (Cache.delete same id s.cache).1 },
    ok (f e),
  )

  abbrev pub change : String → (WebhookEndpoint → WebhookEndpoint) → Handler State WebhookEndpoint
  change id f s = change_found id f (E.find s.endpoints id) s

  unfoldable pub update_endpoint :
      String → UpdateWebhookEndpointRequest → Handler State WebhookEndpoint
  update_endpoint id u = change id (with_updates u)

  abbrev pub delete_found : String → Option WebhookEndpoint → State → State × Result (Unit {0})
  delete_found id none s = (s, throw internal_error)
  delete_found id (some e) s = (
    record { endpoints = E.remove s.endpoints id; cache = (Cache.delete same id s.cache).1 },
    ok tt,
  )

  unfoldable pub delete_endpoint : String → State → State × Result (Unit {0})
  delete_endpoint id s = delete_found id (E.find s.endpoints id) s

  abbrev pub events_of : State × Result WebhookEndpoint → State × Result (List String)
  events_of (s, ok e) = (s, ok e.events)
  events_of (s, throw c) = (s, throw c)

  unfoldable pub get_subscribed_events : String → ℕ → State → State × Result (List String)
  get_subscribed_events id now s = events_of (get_endpoint id now s)

  abbrev pub update_after :
      String → List String → State × Result WebhookEndpoint → State × Result WebhookEndpoint
  update_after id events (s, ok e) = change id (with_events events) s
  update_after id events (s, throw c) = (s, throw c)

  unfoldable pub update_subscribed_events :
      String → List String → ℕ → State → State × Result (List String)
  update_subscribed_events id events now s =
      if not (all_known events)
      then (s, throw bad_request)
      else events_of (update_after id events (get_endpoint id now s))

  abbrev pub secret_of : String → State × Result WebhookEndpoint → State × Result String
  secret_of secret (s, ok e) = (s, ok secret)
  secret_of secret (s, throw c) = (s, throw c)

  unfoldable pub rotate_secret : String → String → State → State × Result String
  rotate_secret id secret s = secret_of secret (change id (with_secret secret) s)

module _ (T : Table String WebhookDelivery) where
  abbrev pub replay_found : String → Option WebhookDelivery → T.Rows → T.Rows × Result (Unit {0})
  replay_found id none rows = (rows, throw not_found)
  replay_found id (some d) rows =
      if not (is_failed d.status)
      then (rows, throw bad_request)
      else (T.put rows id (requeued d), ok tt)

  unfoldable pub replay_dead_letter : String → T.Rows → T.Rows × Result (Unit {0})
  replay_dead_letter id rows = replay_found id (T.find rows id) rows
