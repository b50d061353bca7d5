-- ===== src/ApiKeys/Service.antt =====
-- src/api-keys/api-key.service.ts and the status table of domain/api-key.model.ts. The table of keys
-- is keyed by the hash of the key, which is unique, and each row holds the project and its developer,
-- as the queries of the code include them, with the columns that the code reads. The hash, the search
-- of a project, the random part of a new key, the clock and the identifier of a new row are
-- arguments. Log lines are left out, as are the pages of keys and the table of usage, which the code
-- only appends to.
pub mod Validation
pub mod Revocation
pub mod Rotation
use mux_backend.Prelude.{
  ℕ, ◌+◌, ◌-◌, ◌*◌, String, Bool, true, false, not, ◌&&◌, Option, none, some, ltb, if◌then◌else◌,
  str_eq,
}
use mux_backend.Prelude.Http.{unauthorized, internal_error, Result, ok, throw, Handler}
use Prim.Native.String.{◌++◌ as str_append, len, slice}
use text.Mathlib.Text.{starts_with}
use mux_backend.Prelude.Rows.{RowTable}
use mux_backend.Wallets.Model.{WalletNetwork}

pub data ApiKeyStatus : Type 0 where
  active revoked expired suspended : ApiKeyStatus

pub record Developer : Type 0 where
  pub id : String
  pub email : String

pub record Project : Type 0 where
  pub id : String
  pub developer_id : String
  pub environment : String
  pub developer : Developer

pub record ApiKey : Type 0 where
  pub id : String
  pub name : String
  pub key_hash : String
  pub key_prefix : String
  pub last_four : String
  pub project : Project
  pub network : Option WalletNetwork
  pub status : ApiKeyStatus
  pub expires_at : Option ℕ
  pub last_used_at : Option ℕ
  pub revoked_at : Option ℕ
  pub revoked_reason : Option String
  pub grace_period_ends_at : Option ℕ
  pub created_at : ℕ
  pub updated_at : ℕ

pub record CreateApiKeyRequest : Type 0 where
  pub name : String
  pub project_id : String
  pub expires_at : Option ℕ
  pub network : Option WalletNetwork

pub record CreateApiKeyResult : Type 0 where
  pub api_key : ApiKey
  pub plain_text_key : String

pub record RotateApiKeyRequest : Type 0 where
  pub api_key_id : String
  pub name : Option String

pub record ApiKeyContext : Type 0 where
  pub api_key : ApiKey
  pub project : Project
  pub developer : Developer

-- What a call reads from outside the table of keys; `rotation_grace_seconds` is
-- API_KEY_ROTATION_GRACE_SECONDS; `touches` says whether the update of lastUsedAt succeeds, and
-- `marks_old` whether the update of the old key of a rotation does, which is no transaction with the
-- creation of the new one.
pub record Environment : Type 0 where
  pub hash_api_key : String → String
  pub find_project : String → Option Project
  pub random_part : String
  pub new_id : String
  pub rotation_grace_seconds : Option ℕ
  pub touches : Bool
  pub marks_old : Bool
  pub now : ℕ

-- ALLOWED_TRANSITIONS
unfoldable pub can_transition_api_key_status : ApiKeyStatus → ApiKeyStatus → Bool
can_transition_api_key_status active revoked = true
can_transition_api_key_status active expired = true
can_transition_api_key_status active suspended = true
can_transition_api_key_status suspended active = true
can_transition_api_key_status suspended revoked = true
can_transition_api_key_status _ _ = false

abbrev pub hash_key : ApiKey → String
hash_key k = k.key_hash

abbrev pub has_id : String → ApiKey → Bool
has_id id k = str_eq k.id id

abbrev pub is_revoked : ApiKeyStatus → Bool
is_revoked revoked = true
is_revoked _ = false

-- `date && date < now`
abbrev pub is_past : ℕ → Option ℕ → Bool
is_past now none = false
is_past now (some t) = ltb t now

-- `developerId && key.project.developerId !== developerId`
abbrev pub is_foreign : Option String → ApiKey → Bool
is_foreign none k = false
is_foreign (some d) k = not (str_eq d "") && not (str_eq k.project.developer_id d)

abbrev pub environment_word : Project → String
environment_word p = if str_eq p.environment "production" then "live" else "test"

abbrev pub key_prefix_of : Project → String
key_prefix_of p = str_append "mux_" (str_append (environment_word p) "_")

abbrev pub plain_text_key_of : Project → String → String
plain_text_key_of p random =
    str_append "mux_" (str_append (environment_word p) (str_append "_" random))

-- `slice(-4)`
abbrev pub last_four_of : String → String
last_four_of s = slice s (len s - 4) (len s)

abbrev pub new_row : CreateApiKeyRequest → Environment → Project → ApiKey
new_row q env p = record {
  id = env.new_id;
  name = q.name;
  key_hash = env.hash_api_key (plain_text_key_of p env.random_part);
  key_prefix = key_prefix_of p;
  last_four = last_four_of env.random_part;
  project = p;
  network = q.network;
  status = active;
  expires_at = q.expires_at;
  last_used_at = none;
  revoked_at = none;
  revoked_reason = none;
  grace_period_ends_at = none;
  created_at = env.now;
  updated_at = env.now;
}

-- The data of the updates.
abbrev pub expired_row : ℕ → ApiKey → ApiKey
expired_row now k = record k { status = expired; updated_at = now }

abbrev pub touched_row : ℕ → ApiKey → ApiKey
touched_row now k = record k { last_used_at = some now; updated_at = now }

abbrev pub revoked_row : ℕ → Option String → ApiKey → ApiKey
revoked_row now reason k = record k {
  status = revoked;
  revoked_at = some now;
  revoked_reason = elim reason [ none ↦ k.revoked_reason | some r ↦ some r ];
  updated_at = now;
}

abbrev pub grace_seconds : Option ℕ → ℕ
grace_seconds none = 3600
grace_seconds (some n) = n

abbrev pub grace_row : Environment → ApiKey → ApiKey
grace_row env k = record k {
  grace_period_ends_at = some (env.now + grace_seconds env.rotation_grace_seconds * 1000);
  updated_at = env.now;
}

-- `request.name || …`
abbrev pub rotated_name : Option String → ApiKey → String
rotated_name none k = str_append k.name " (rotated)"
rotated_name (some n) k = if str_eq n "" then str_append k.name " (rotated)" else n

module _ (A : RowTable String ApiKey hash_key) where
  abbrev pub insert_at : Option ApiKey → ApiKey → String → Handler A.Rows CreateApiKeyResult
  insert_at (some taken) k plain rows = (rows, throw internal_error)
  insert_at none k plain rows = (A.put rows k, ok (record { api_key = k; plain_text_key = plain }))

  -- A hash that is taken violates the unique constraint.
  abbrev pub create_in :
      CreateApiKeyRequest → Environment → Option Project → Handler A.Rows CreateApiKeyResult
  create_in q env none rows = (rows, throw internal_error)
  create_in q env (some p) rows =
      let k = new_row q env p in
      insert_at (A.find rows k.key_hash) k (plain_text_key_of p env.random_part) rows

  unfoldable pub create_api_key :
      CreateApiKeyRequest → Environment → Handler A.Rows CreateApiKeyResult
  create_api_key q env = create_in q env (env.find_project q.project_id)

  abbrev pub context : ApiKey → ApiKeyContext
  context k = record { api_key = k; project = k.project; developer = k.project.developer }

  -- The tests of an active key, and the update that follows an answer.
  abbrev pub admit_active : Environment → ApiKey → Handler A.Rows ApiKeyContext
  admit_active env k rows =
      if is_past env.now k.grace_period_ends_at
      then (rows, throw unauthorized)
      else (if is_past env.now k.expires_at
          then (A.put rows (expired_row env.now k), throw unauthorized)
          else (if env.touches
              then (A.put rows (touched_row env.now k), ok (context k))
              else (rows, ok (context k))))

  abbrev pub admit : Environment → ApiKey → ApiKeyStatus → Handler A.Rows ApiKeyContext
  admit env k revoked rows = (rows, throw unauthorized)
  admit env k suspended rows = (rows, throw unauthorized)
  admit env k expired rows = (rows, throw unauthorized)
  admit env k active rows = admit_active env k rows

  abbrev pub admit_found : Environment → Option ApiKey → Handler A.Rows ApiKeyContext
  admit_found env none rows = (rows, throw unauthorized)
  admit_found env (some k) rows = admit env k k.status rows

  -- The empty text does not start with `mux_` either.
  unfoldable pub validate_api_key : String → Environment → Handler A.Rows ApiKeyContext
  validate_api_key plain env rows =
      if not (starts_with plain "mux_")
      then (rows, throw unauthorized)
      else admit_found env (A.find rows (env.hash_api_key plain)) rows

  abbrev pub revoke_found :
      Option String → Option String → ℕ → Option ApiKey → Handler A.Rows ApiKey
  revoke_found reason developer now none rows = (rows, throw internal_error)
  revoke_found reason developer now (some k) rows =
      if is_foreign developer k
      then (rows, throw unauthorized)
      else (if is_revoked k.status
          then (rows, ok k)
          else (A.put rows (revoked_row now reason k), ok (revoked_row now reason k)))

  unfoldable pub revoke_api_key : String → Option String → Option String → ℕ → Handler A.Rows ApiKey
  revoke_api_key id reason developer now rows =
      revoke_found reason developer now (A.find_first rows (has_id id)) rows

  -- The request for the new key of a rotation.
  abbrev pub renewal : RotateApiKeyRequest → ApiKey → CreateApiKeyRequest
  renewal q k = record {
    name = rotated_name q.name k;
    project_id = k.project.id;
    expires_at = k.expires_at;
    network = k.network;
  }

  abbrev pub with_grace :
      Environment → ApiKey → A.Rows × Result CreateApiKeyResult → A.Rows × Result CreateApiKeyResult
  with_grace env k (rows, throw e) = (rows, throw e)
  with_grace env k (rows, ok r) =
      if env.marks_old then (A.put rows (grace_row env k), ok r) else (rows, throw internal_error)

  abbrev pub rotate_found :
      RotateApiKeyRequest
      → Option String
      → Environment
      → Option ApiKey
      → Handler A.Rows CreateApiKeyResult
  rotate_found q developer env none rows = (rows, throw internal_error)
  rotate_found q developer env (some k) rows =
      if is_foreign developer k
      then (rows, throw unauthorized)
      else with_grace env k (create_api_key (renewal q k) env rows)

  unfoldable pub rotate_api_key :
      RotateApiKeyRequest → Option String → Environment → Handler A.Rows CreateApiKeyResult
  rotate_api_key q developer env rows =
      rotate_found q developer env (A.find_first rows (has_id q.api_key_id)) rows
