-- ===== src/Tests/Users.antt =====
-- Examples for the users, with a table that is a function from its keys to its rows.
use mux_backend.Prelude.{ℕ, String, ◌≡◌, refl, false, none, some, List, [], ◌∷◌}
use mux_backend.Prelude.Rows.{RowTable, function_rows, no_rows}
use mux_backend.Users.Idempotent.{
  User, FindOrCreateUserRequest, FindOrCreateUserResult, Environment, auth_key, new_user, logged_in,
  find_or_create_user, store_others, update_user,
}
use mux_backend.Users.Idempotent.Same.{Request, changes, step, run, find_or_create-same}
use mux_backend.Tests.Data.{string_discrete}

abbrev table : RowTable String User auth_key
table = function_rows auth_key string_discrete

abbrev request : FindOrCreateUserRequest
request = record {
  auth_id = "a1";
  email = none;
  display_name = none;
  auth_provider = none;
  last_login_ip = none;
  last_login_user_agent = none;
}

abbrev alone : ℕ → String → Environment
alone now id = record { new_id = id; now = now; meanwhile = [] }

-- Another request stores the user between the search and the creation.
abbrev rival : User
rival = new_user request (alone 4 "u1")

abbrev raced : Environment
raced = record { new_id = "u2"; now = 5; meanwhile = rival ∷ [] }

abbrev first : FindOrCreateUserResult
first = record { user = logged_in request 5 rival; is_new_user = false }

abbrev requests : List Request
requests =
    changes "u1"
      (record {
        email = some "a@x";
        display_name = none;
        auth_provider = none;
        last_login_ip = none;
        last_login_user_agent = none;
      })
      6
    ∷ []

abbrev second : FindOrCreateUserResult
second = record {
  user = record (logged_in request 7 rival) { email = some "a@x" };
  is_new_user = false;
}

find_or_create-same_example : (second.user.id ≡ first.user.id) × (second.is_new_user ≡ false)
unfolding find_or_create_user store_others update_user step run string_discrete
find_or_create-same_example =
    find_or_create-same table request request raced (alone 7 "u3")
      (no_rows auth_key string_discrete) first second requests string_discrete refl refl refl
