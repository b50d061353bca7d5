-- ===== src/Webhooks/Endpoints/Cached.antt =====
-- The cached endpoints are the stored ones (webhook.service.ts).
use mux_backend.Prelude.{
  ℕ, String, ◌≡◌, refl, sym, ap, subst, inl, inr, Option, none, some, List, [], ◌∷◌, Bool-cases,
}
use mux_backend.Prelude.Http.{not_found, Result, ok, throw}
use mux_backend.Prelude.Table.{Table}
use mux_backend.Common.Cache
use mux_backend.Common.Cache.{CacheMap}
use mux_backend.Common.Cache.Coherence.{
  Agrees, Agrees-get, Agrees-set, Agrees-change, Agrees-new, Agrees-hit,
}
use mux_backend.Webhooks.Delivery.{WebhookEndpoint}
use mux_backend.Webhooks.Endpoints.{
  CreateWebhookEndpointRequest, UpdateWebhookEndpointRequest, webhook_cache_ttl, all_known,
  new_endpoint, with_updates, with_events, with_secret, State, create_at, create_endpoint,
  read_through, served, get_endpoint, change_found, change, update_endpoint, delete_found,
  delete_endpoint, events_of, get_subscribed_events, update_after, update_subscribed_events,
  secret_of, rotate_secret,
}

-- The calls of the service.
pub data Request : Type 0 where
  creates : CreateWebhookEndpointRequest → String → String → Request
  gets : String → ℕ → Request
  updates : String → UpdateWebhookEndpointRequest → Request
  deletes : String → Request
  lists : String → ℕ → Request
  subscribes : String → List String → ℕ → Request
  rotates : String → String → Request

-- A read of the table.
abbrev pub read : Option WebhookEndpoint → Result WebhookEndpoint
read none = throw not_found
read (some e) = ok e

module _ (E : Table String WebhookEndpoint) (same : Discrete String) where
  unfoldable pub step : State E same → Request → State E same
  step s (creates q id secret) = (create_endpoint E same q id secret s).0
  step s (gets id now) = (get_endpoint E same id now s).0
  step s (updates id u) = (update_endpoint E same id u s).0
  step s (deletes id) = (delete_endpoint E same id s).0
  step s (lists id now) = (get_subscribed_events E same id now s).0
  step s (subscribes id events now) = (update_subscribed_events E same id events now s).0
  step s (rotates id secret) = (rotate_secret E same id secret s).0

  unfoldable pub run : State E same → List Request → State E same
  run s [] = s
  run s (q ∷ qs) = run (step s q) qs

  -- Every cached endpoint is the stored one.
  pub record IsFresh (s : State E same) : Type 0 where
    pub agrees : Agrees same (E.find s.endpoints) s.cache

  create-IsFresh :
      (q : CreateWebhookEndpointRequest) (id secret : String) (s : State E same)
      → IsFresh s
      → IsFresh (create_endpoint E same q id secret s).0
  unfolding create_endpoint
  create-IsFresh q id secret s h = go (E.find s.endpoints id) refl
    where
      go :
          (o : Option WebhookEndpoint)
          → E.find s.endpoints id ≡ o
          → IsFresh (create_at E same o (new_endpoint q id secret) id s).0
      go (some e) f = h
      go none f = record {
        agrees =
            Agrees-new same (E.find s.endpoints)
              (E.find (E.put s.endpoints id (new_endpoint q id secret))) s.cache id f
              (λ j n. E.find-put_ne s.endpoints id j (new_endpoint q id secret) n) h.agrees;
      }

  served-IsFresh :
      (id : String) (now : ℕ) (s : State E same) (hit : Option WebhookEndpoint)
      (cache : CacheMap String WebhookEndpoint)
      → Agrees same (E.find s.endpoints) cache
      → IsFresh (served E same id now s.endpoints (hit, cache)).0
  served-IsFresh id now s (some e) cache h = record { agrees = h }
  served-IsFresh id now s none cache h = go (E.find s.endpoints id) refl
    where
      go :
          (o : Option WebhookEndpoint)
          → E.find s.endpoints id ≡ o
          → IsFresh (read_through E same id now s.endpoints cache o).0
      go none f = record { agrees = h }
      go (some e) f = record {
        agrees = Agrees-set same (E.find s.endpoints) cache id webhook_cache_ttl now e f h;
      }

  get-IsFresh :
      (id : String) (now : ℕ) (s : State E same)
      → IsFresh s
      → IsFresh (get_endpoint E same id now s).0
  unfolding get_endpoint
  get-IsFresh id now s h =
      served-IsFresh id now s (Cache.get same id now s.cache).0 (Cache.get same id now s.cache).1
        (Agrees-get same (E.find s.endpoints) s.cache id now h.agrees)

  change-IsFresh :
      (id : String) (f : WebhookEndpoint → WebhookEndpoint) (s : State E same)
      → IsFresh s
      → IsFresh (change E same id f s).0
  change-IsFresh id f s h = go (E.find s.endpoints id)
    where
      go : (o : Option WebhookEndpoint) → IsFresh (change_found E same id f o s).0
      go none = h
      go (some e) = record {
        agrees =
            Agrees-change same (E.find s.endpoints) (E.find (E.put s.endpoints id (f e))) s.cache id
              (λ j n. E.find-put_ne s.endpoints id j (f e) n) h.agrees;
      }

  delete-IsFresh :
      (id : String) (s : State E same) → IsFresh s → IsFresh (delete_endpoint E same id s).0
  unfolding delete_endpoint
  delete-IsFresh id s h = go (E.find s.endpoints id)
    where
      go : (o : Option WebhookEndpoint) → IsFresh (delete_found E same id o s).0
      go none = h
      go (some e) = record {
        agrees =
            Agrees-change same (E.find s.endpoints) (E.find (E.remove s.endpoints id)) s.cache id
              (λ j n. E.find-remove_ne s.endpoints id j n) h.agrees;
      }

  events_of-state : (x : State E same × Result WebhookEndpoint) → (events_of E same x).0 ≡ x.0
  events_of-state (s, ok e) = refl
  events_of-state (s, throw c) = refl

  secret_of-state :
      (secret : String) (x : State E same × Result WebhookEndpoint)
      → (secret_of E same secret x).0 ≡ x.0
  secret_of-state secret (s, ok e) = refl
  secret_of-state secret (s, throw c) = refl

  subscribe-IsFresh :
      (id : String) (events : List String) (now : ℕ) (s : State E same)
      → IsFresh s
      → IsFresh (update_subscribed_events E same id events now s).0
  unfolding update_subscribed_events
  subscribe-IsFresh id events now s h = elim (Bool-cases (all_known events)) [
    | inr bad ↦ rw bad h
    | inl known ↦
        let x = get_endpoint E same id now s in
        rw known (
          subst IsFresh (sym (events_of-state (update_after E same id events x)))
            (go x (get-IsFresh id now s h)))
  ]
    where
      go :
          (x : State E same × Result WebhookEndpoint)
          → IsFresh x.0
          → IsFresh (update_after E same id events x).0
      go (s', ok e) h = change-IsFresh id (with_events events) s' h
      go (s', throw c) h = h

  step-IsFresh : (s : State E same) (q : Request) → IsFresh s → IsFresh (step s q)
  unfolding step update_endpoint get_subscribed_events rotate_secret
  step-IsFresh s (creates q id secret) h = create-IsFresh q id secret s h
  step-IsFresh s (gets id now) h = get-IsFresh id now s h
  step-IsFresh s (updates id u) h = change-IsFresh id (with_updates u) s h
  step-IsFresh s (deletes id) h = delete-IsFresh id s h
  step-IsFresh s (lists id now) h =
      subst IsFresh (sym (events_of-state (get_endpoint E same id now s))) (get-IsFresh id now s h)
  step-IsFresh s (subscribes id events now) h = subscribe-IsFresh id events now s h
  step-IsFresh s (rotates id secret) h =
      subst IsFresh (sym (secret_of-state secret (change E same id (with_secret secret) s)))
        (change-IsFresh id (with_secret secret) s h)

  run-IsFresh : (s : State E same) (qs : List Request) → IsFresh s → IsFresh (run s qs)
  unfolding run
  run-IsFresh s [] h = h
  run-IsFresh s (q ∷ qs) h = run-IsFresh (step s q) qs (step-IsFresh s q h)

  get-read :
      (id : String) (now : ℕ) (s : State E same)
      → IsFresh s
      → (get_endpoint E same id now s).1 ≡ read (E.find s.endpoints id)
  unfolding get_endpoint
  get-read id now s h = go (Cache.get same id now s.cache).0 (Cache.get same id now s.cache).1 refl
    where
      go :
          (hit : Option WebhookEndpoint) (cache : CacheMap String WebhookEndpoint)
          → (Cache.get same id now s.cache).0 ≡ hit
          → (served E same id now s.endpoints (hit, cache)).1 ≡ read (E.find s.endpoints id)
      go (some e) cache f =
          ap read (sym (Agrees-hit same (E.find s.endpoints) s.cache id now e h.agrees f))
      go none cache f = missed (E.find s.endpoints id)
        where
          missed :
              (o : Option WebhookEndpoint)
              → (read_through E same id now s.endpoints cache o).1 ≡ read o
          missed none = refl
          missed (some e) = refl

  -- After any calls of the service of endpoints, which create, get, update and delete endpoints, read
  -- or change their events and rotate their secrets, and with no other writer of the table between
  -- them, a cached read returns what the table holds: a deleted endpoint is not found and a rotated
  -- secret is the one that is served.
  pub get_endpoint-fresh :
      (s : State E same) (qs : List Request) (id : String) (now : ℕ)
      → IsFresh s
      → (get_endpoint E same id now (run s qs)).1 ≡ read (E.find (run s qs).endpoints id)
  get_endpoint-fresh s qs id now h = get-read id now (run s qs) (run-IsFresh s qs h)
