-- ===== src/Tests/ApiKeys.antt =====
-- Examples for the API keys, with a table that is a function from its keys to its rows and a hash
-- that is the text itself.
use mux_backend.Prelude.{ℕ, String, ◌≡◌, refl, ◌↔◌, true, Option, none, some, List, [], ◌∷◌, arith}
use mux_backend.Prelude.Http.{unauthorized, ok, throw}
use mux_backend.Prelude.Rows.{RowTable, function_rows, no_rows}
use mux_backend.ApiKeys.Service.{
  ApiKey, CreateApiKeyRequest, CreateApiKeyResult, RotateApiKeyRequest, Environment, Project,
  hash_key, new_row, grace_row, context, create_api_key, validate_api_key, revoke_api_key,
  rotate_api_key, revoked_row,
}
use mux_backend.ApiKeys.Service.Validation.{IsUsable, validate-ok_iff, validate-create}
use mux_backend.ApiKeys.Service.Revocation.{
  Request, creates, validates, rotates, run, revoked_refused,
}
use mux_backend.ApiKeys.Service.Rotation.{Rotated, rotate_outcome, rotate_revives}
use mux_backend.Tests.Data.{string_discrete}

abbrev table : RowTable String ApiKey hash_key
table = function_rows hash_key string_discrete

abbrev project : Project
project = record {
  id = "p1";
  developer_id = "d1";
  environment = "production";
  developer = record { id = "d1"; email = "d@x" };
}

abbrev only_project : String → Option Project
only_project id = some project

abbrev hash : String → String
hash s = s

abbrev at : ℕ → String → String → Environment
at now random id = record {
  hash_api_key = hash;
  find_project = only_project;
  random_part = random;
  new_id = id;
  rotation_grace_seconds = some 60;
  touches = true;
  marks_old = true;
  now = now;
}

abbrev request : CreateApiKeyRequest
request = record { name = "k"; project_id = "p1"; expires_at = some 900000; network = none }

abbrev key : ApiKey
key = new_row request (at 10 "abcd1234" "k1") project

abbrev keys : table.Rows
keys = table.put (no_rows hash_key string_discrete) key

validate-ok_iff_example :
    ((validate_api_key table "mux_live_abcd1234" (at 20 "" "") keys).1 ≡ ok (context table key)) ↔ (
      (k : ApiKey) × IsUsable table "mux_live_abcd1234" (at 20 "" "") keys k
      × (context table k ≡ context table key))
validate-ok_iff_example =
    validate-ok_iff table "mux_live_abcd1234" (at 20 "" "") keys (context table key)

validate-create_example :
    let env = at 10 "abcd1234" "k1" in
    let none_yet = no_rows hash_key string_discrete in
    (validate_api_key table "mux_live_abcd1234"
      (at 20 "" "")
      (create_api_key table request env none_yet).0).1
    ≡ ok (context table key)
unfolding create_api_key
validate-create_example =
    validate-create table request (at 10 "abcd1234" "k1") (at 20 "" "")
      (no_rows hash_key string_discrete)
      (record { api_key = key; plain_text_key = "mux_live_abcd1234" }) refl refl refl

abbrev rotation : RotateApiKeyRequest
rotation = record { api_key_id = "k1"; name = none }

abbrev requests : List Request
requests =
    creates request (at 31 "abcd1234" "k2")
    ∷ validates "mux_live_abcd1234" (at 32 "" "")
    ∷ rotates rotation (some "d1") (at 33 "wxyz5678" "k3")
    ∷ []

revoked_refused_example :
    let rows = run table (revoke_api_key table "k1" none (some "d1") 30 keys).0 requests in
    validate_api_key table "mux_live_abcd1234" (at 40 "" "") rows ≡ (rows, throw unauthorized)
unfolding revoke_api_key string_discrete
revoked_refused_example =
    revoked_refused table "k1" none (some "d1") 30 keys (revoked_row 30 none key) requests
      "mux_live_abcd1234" (at 40 "" "") string_discrete refl refl

rotate_outcome_example :
    Rotated table rotation
      (some "d1")
      (at 33 "wxyz5678" "k3")
      keys
      (rotate_api_key table rotation (some "d1") (at 33 "wxyz5678" "k3") keys)
rotate_outcome_example = rotate_outcome table rotation (some "d1") (at 33 "wxyz5678" "k3") keys

-- A key that was rotated before, with a grace period that ended at 50.
abbrev lapsed : ApiKey
lapsed = record key { grace_period_ends_at = some 50 }

abbrev lapsed_keys : table.Rows
lapsed_keys = table.put (no_rows hash_key string_discrete) lapsed

abbrev renewed : CreateApiKeyResult
renewed = record {
  api_key =
      new_row
        (record {
          name = "k (rotated)";
          project_id = "p1";
          expires_at = some 900000;
          network = none;
        })
        (at 100 "wxyz5678" "k3") project;
  plain_text_key = "mux_live_wxyz5678";
}

rotate_revives_example :
    (validate_api_key table "mux_live_abcd1234"
      (at 200 "" "")
      (rotate_api_key table rotation none (at 100 "wxyz5678" "k3") lapsed_keys).0).1
    ≡ ok (context table (grace_row (at 100 "wxyz5678" "k3") lapsed))
unfolding rotate_api_key create_api_key string_discrete
rotate_revives_example =
    rotate_revives table rotation none (at 100 "wxyz5678" "k3") (at 200 "" "") lapsed_keys renewed
      lapsed "mux_live_abcd1234" refl refl refl refl refl (omega arith) refl
