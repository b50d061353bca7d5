-- ===== src/Tests/Auth.antt =====
-- Examples for the refresh tokens, with a table that is a function from its keys to its rows.
use mux_backend.Prelude.{String, ◌≡◌, refl, none, some, List, [], ◌∷◌}
use mux_backend.Prelude.Http.{ok}
use mux_backend.Prelude.Rows.{RowTable, function_rows, no_rows}
use mux_backend.Auth.RefreshTokens.{
  RefreshToken, RotateRefreshTokenRequest, token_key, new_token, validate_and_rotate_token,
  rotate_refresh_token, insert,
}
use mux_backend.Auth.RefreshTokens.Once.{Request, creates, revokes_user, exchanges, run}
use mux_backend.Auth.RefreshTokens.Rotation.{Traded, exchange_outcome, exchange_once}
use mux_backend.Tests.Data.{string_discrete}

abbrev table : RowTable String RefreshToken token_key
table = function_rows token_key string_discrete

abbrev first : RefreshToken
first = new_token (record { user_id = "u1"; token_hash = "h1"; expires_at = 100 }) none "t1" 1

abbrev tokens : table.Rows
tokens = table.put (no_rows token_key string_discrete) first

abbrev swap : RotateRefreshTokenRequest
swap = record { current_token_hash = "h1"; new_token_hash = "h2"; expires_at = 200 }

abbrev swap_again : RotateRefreshTokenRequest
swap_again = record { current_token_hash = "h1"; new_token_hash = "h3"; expires_at = 300 }

abbrev second : RefreshToken
second =
    new_token (record { user_id = "u1"; token_hash = "h2"; expires_at = 200 }) (some "t1") "t2" 11

exchange_outcome_example :
    Traded table swap 10 11 tokens (validate_and_rotate_token table swap "t2" 10 11 tokens)
exchange_outcome_example = exchange_outcome table swap "t2" 10 11 tokens string_discrete

abbrev requests : List Request
requests =
    creates (record { user_id = "u2"; token_hash = "h1"; expires_at = 400 }) "t4" 12
    ∷ revokes_user "u1" none 13
    ∷ exchanges swap_again "t5" 14 15
    ∷ []

exchange_once_example :
    let rows = run table (validate_and_rotate_token table swap "t2" 10 11 tokens).0 requests in
    validate_and_rotate_token table swap_again "t6" 20 21 rows ≡ (rows, ok none)
unfolding validate_and_rotate_token rotate_refresh_token insert string_discrete
exchange_once_example =
    exchange_once table swap swap_again "t2" 10 11 tokens second requests "t6" 20 21 string_discrete
      refl refl
