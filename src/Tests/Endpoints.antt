-- ===== src/Tests/Endpoints.antt =====
-- Examples for the endpoints of webhooks, with a table that is a function from its keys to its rows.
use mux_backend.Prelude.{String, ◌≡◌, Option, none, some, List, [], ◌∷◌}
use mux_backend.Prelude.Table.{Table, function_table}
use mux_backend.Common.Cache.{map_get}
use mux_backend.Webhooks.Delivery.{WebhookEndpoint}
use mux_backend.Webhooks.Endpoints.{State, get_endpoint}
use mux_backend.Webhooks.Endpoints.Cached.{
  Request, creates, gets, subscribes, rotates, run, read, get_endpoint-fresh,
}
use mux_backend.Tests.Data.{string_discrete}

abbrev table : Table String WebhookEndpoint
table = function_table string_discrete

abbrev empty : String → Option WebhookEndpoint
empty k = none

abbrev start : State table string_discrete
start = record { endpoints = empty; cache = [] }

abbrev requests : List Request
requests =
    creates (record { project_id = "p1"; url = "https://x"; events = [] }) "e1" "whsec_a"
    ∷ gets "e1" 10
    ∷ subscribes "e1" ("wallet.created" ∷ []) 20
    ∷ rotates "e1" "whsec_b"
    ∷ []

get_endpoint-fresh_example :
    (get_endpoint table string_discrete "e1" 30 (run table string_discrete start requests)).1
    ≡ read ((run table string_discrete start requests).endpoints "e1")
unfolding map_get
get_endpoint-fresh_example =
    get_endpoint-fresh table string_discrete start requests "e1" 30
      (record { agrees = λ id e p. absurd (none_cached p) })
  where
    none_cached : {A : Type 0} {e : A} → ◌≡◌ {A = Option A} none (some e) → ⊥
    none_cached p = cc
