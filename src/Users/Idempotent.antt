-- ===== src/Users/Idempotent.antt =====
-- src/users/idempotent-user.service.ts with the statuses of src/users/entities/user.entity.ts. The
-- table is keyed by authId, which is unique. The clock, the identifier of a new row and the users that
-- other requests store between the search and the creation are arguments; log lines are left out, as
-- are the pages of sessions.
pub mod Same
use mux_backend.Prelude.{
  ℕ, String, Bool, true, false, not, Option, none, some, List, [], ◌∷◌, if◌then◌else◌, str_eq,
}
use mux_backend.Prelude.Http.{bad_request, internal_error, Result, ok, throw, Handler}
use mux_backend.Prelude.Rows.{RowTable}

pub data UserStatus : Type 0 where
  provisioning active recovery_pending suspended disabled : UserStatus

-- ALLOWED_TRANSITIONS
unfoldable pub can_transition_user_status : UserStatus → UserStatus → Bool
can_transition_user_status provisioning active = true
can_transition_user_status provisioning disabled = true
can_transition_user_status active recovery_pending = true
can_transition_user_status active suspended = true
can_transition_user_status active disabled = true
can_transition_user_status recovery_pending active = true
can_transition_user_status recovery_pending suspended = true
can_transition_user_status recovery_pending disabled = true
can_transition_user_status suspended active = true
can_transition_user_status suspended disabled = true
can_transition_user_status _ _ = false

pub record User : Type 0 where
  pub id : String
  pub auth_id : String
  pub email : Option String
  pub display_name : Option String
  pub status : UserStatus
  pub auth_provider : String
  pub last_login_at : Option ℕ
  pub last_login_ip : Option String
  pub last_login_user_agent : Option String
  pub created_at : ℕ
  pub updated_at : ℕ

pub record FindOrCreateUserRequest : Type 0 where
  pub auth_id : String
  pub email : Option String
  pub display_name : Option String
  pub auth_provider : Option String
  pub last_login_ip : Option String
  pub last_login_user_agent : Option String

pub record FindOrCreateUserResult : Type 0 where
  pub user : User
  pub is_new_user : Bool

-- Partial<Omit<FindOrCreateUserRequest, 'authId'>>: an absent field is not written.
pub record UserUpdates : Type 0 where
  pub email : Option String
  pub display_name : Option String
  pub auth_provider : Option String
  pub last_login_ip : Option String
  pub last_login_user_agent : Option String

pub record Environment : Type 0 where
  pub new_id : String
  pub now : ℕ
  pub meanwhile : List User

abbrev pub auth_key : User → String
auth_key u = u.auth_id

abbrev pub has_id : String → User → Bool
has_id id u = str_eq u.id id

abbrev pub is_active : UserStatus → Bool
is_active active = true
is_active _ = false

-- A field that is given replaces the old one.
abbrev pub given : Option String → Option String → Option String
given old none = old
given old (some new) = some new

abbrev pub or_default : String → Option String → String
or_default text none = text
or_default text (some s) = s

abbrev pub new_user : FindOrCreateUserRequest → Environment → User
new_user q env = record {
  id = env.new_id;
  auth_id = q.auth_id;
  email = q.email;
  display_name = q.display_name;
  status = active;
  auth_provider = or_default "UNKNOWN" q.auth_provider;
  last_login_at = some env.now;
  last_login_ip = q.last_login_ip;
  last_login_user_agent = q.last_login_user_agent;
  created_at = env.now;
  updated_at = env.now;
}

abbrev pub logged_in : FindOrCreateUserRequest → ℕ → User → User
logged_in q now u = record u {
  last_login_at = some now;
  last_login_ip = given u.last_login_ip q.last_login_ip;
  last_login_user_agent = given u.last_login_user_agent q.last_login_user_agent;
  updated_at = now;
}

abbrev pub updated : UserUpdates → ℕ → User → User
updated p now u = record u {
  email = given u.email p.email;
  display_name = given u.display_name p.display_name;
  auth_provider = or_default u.auth_provider p.auth_provider;
  last_login_ip = given u.last_login_ip p.last_login_ip;
  last_login_user_agent = given u.last_login_user_agent p.last_login_user_agent;
  updated_at = now;
}

module _ (U : RowTable String User auth_key) where
  abbrev pub store_at : Option User → User → U.Rows → U.Rows
  store_at none u rows = U.put rows u
  store_at (some taken) u rows = rows

  -- What other requests store; an authId that is taken violates the unique constraint.
  unfoldable pub store_others : List User → U.Rows → U.Rows
  store_others [] rows = rows
  store_others (u ∷ us) rows = store_others us (store_at (U.find rows u.auth_id) u rows)

  abbrev pub log_in :
      FindOrCreateUserRequest → ℕ → User → U.Rows → U.Rows × Result FindOrCreateUserResult
  log_in q now u rows = (
    U.put rows (logged_in q now u),
    ok (record { user = logged_in q now u; is_new_user = false }),
  )

  -- The creation; on a violated constraint (P2002) the user is searched again.
  abbrev pub create_or_retry :
      FindOrCreateUserRequest
      → Environment
      → Option User
      → U.Rows
      → U.Rows × Result FindOrCreateUserResult
  create_or_retry q env none rows =
      (U.put rows (new_user q env), ok (record { user = new_user q env; is_new_user = true }))
  create_or_retry q env (some u) rows = log_in q env.now u rows

  abbrev pub create_after :
      FindOrCreateUserRequest → Environment → U.Rows → U.Rows × Result FindOrCreateUserResult
  create_after q env rows = create_or_retry q env (U.find rows q.auth_id) rows

  abbrev pub found_or_create :
      FindOrCreateUserRequest
      → Environment
      → Option User
      → U.Rows
      → U.Rows × Result FindOrCreateUserResult
  found_or_create q env none rows = create_after q env (store_others env.meanwhile rows)
  found_or_create q env (some u) rows =
      if not (is_active u.status) then (rows, throw bad_request) else log_in q env.now u rows

  unfoldable pub find_or_create_user :
      FindOrCreateUserRequest → Environment → Handler U.Rows FindOrCreateUserResult
  find_or_create_user q env rows = found_or_create q env (U.find rows q.auth_id) rows

  unfoldable pub find_user_by_auth_id : String → U.Rows → Option User
  find_user_by_auth_id auth_id rows = U.find rows auth_id

  unfoldable pub find_user_by_id : String → U.Rows → Option User
  find_user_by_id id rows = U.find_first rows (has_id id)

  abbrev pub update_found : UserUpdates → ℕ → Option User → Handler U.Rows User
  update_found p now none rows = (rows, throw internal_error)
  update_found p now (some u) rows = (U.put rows (updated p now u), ok (updated p now u))

  unfoldable pub update_user : String → UserUpdates → ℕ → Handler U.Rows User
  update_user id p now rows = update_found p now (U.find_first rows (has_id id)) rows
