-- ===== src/Auth/RefreshTokens.antt =====
-- src/auth/refresh-token.service.ts. The table is keyed by the token's hash, which is unique; an
-- update by the identifier of a row that has just been read is an update of that row. The clock and
-- the identifier of a new row are arguments; log lines are left out.
pub mod Rotation
pub mod Once
use mux_backend.Prelude.{
  ℕ, ◌+◌, String, Bool, true, false, not, ◌&&◌, Option, none, some, ltb, if◌then◌else◌, str_eq,
}
use mux_backend.Prelude.Http.{internal_error, Result, ok, throw, Handler}
use mux_backend.Prelude.Rows.{RowTable}

pub data RefreshTokenStatus : Type 0 where
  active rotated revoked expired : RefreshTokenStatus

pub record RefreshToken : Type 0 where
  pub id : String
  pub user_id : String
  pub token_hash : String
  pub previous_token_id : Option String
  pub status : RefreshTokenStatus
  pub expires_at : ℕ
  pub last_used_at : Option ℕ
  pub usage_count : ℕ
  pub rotated_at : Option ℕ
  pub rotated_reason : Option String
  pub revoked_at : Option ℕ
  pub revoke_reason : Option String
  pub created_at : ℕ
  pub updated_at : ℕ

pub record CreateRefreshTokenRequest : Type 0 where
  pub user_id : String
  pub token_hash : String
  pub expires_at : ℕ

pub record RotateRefreshTokenRequest : Type 0 where
  pub current_token_hash : String
  pub new_token_hash : String
  pub expires_at : ℕ

abbrev pub token_key : RefreshToken → String
token_key t = t.token_hash

-- `status === ACTIVE`
abbrev pub is_active : RefreshTokenStatus → Bool
is_active active = true
is_active _ = false

-- `reason || text`
abbrev pub reason_or : String → Option String → String
reason_or text none = text
reason_or text (some r) = if str_eq r "" then text else r

-- The row of a new token; the columns that are not given have the schema's defaults.
abbrev pub new_token : CreateRefreshTokenRequest → Option String → String → ℕ → RefreshToken
new_token q previous id now = record {
  id = id;
  user_id = q.user_id;
  token_hash = q.token_hash;
  previous_token_id = previous;
  status = active;
  expires_at = q.expires_at;
  last_used_at = none;
  usage_count = 0;
  rotated_at = none;
  rotated_reason = none;
  revoked_at = none;
  revoke_reason = none;
  created_at = now;
  updated_at = now;
}

-- The data of the updates.
abbrev pub rotated_token : ℕ → RefreshToken → RefreshToken
rotated_token now t = record t {
  status = rotated;
  rotated_at = some now;
  rotated_reason = some "Rotated on use";
  updated_at = now;
}

abbrev pub used_token : ℕ → RefreshToken → RefreshToken
used_token now t = record t {
  usage_count = t.usage_count + 1;
  last_used_at = some now;
  updated_at = now;
}

abbrev pub revoked_token : ℕ → String → RefreshToken → RefreshToken
revoked_token now reason t = record t {
  status = revoked;
  revoked_at = some now;
  revoke_reason = some reason;
  updated_at = now;
}

module _ (T : RowTable String RefreshToken token_key) where
  abbrev pub insert_at : Option RefreshToken → RefreshToken → Handler T.Rows RefreshToken
  insert_at none t rows = (T.put rows t, ok t)
  insert_at (some taken) t rows = (rows, throw internal_error)

  -- `create`: a hash that is taken violates the unique constraint.
  unfoldable pub insert : RefreshToken → Handler T.Rows RefreshToken
  insert t rows = insert_at (T.find rows t.token_hash) t rows

  unfoldable pub create_refresh_token :
      CreateRefreshTokenRequest → String → ℕ → Handler T.Rows RefreshToken
  create_refresh_token q id now = insert (new_token q none id now)

  abbrev pub successor : RotateRefreshTokenRequest → String → ℕ → RefreshToken → RefreshToken
  successor q id now t =
      new_token
        (record { user_id = t.user_id; token_hash = q.new_token_hash; expires_at = q.expires_at })
        (some t.id) id now

  abbrev pub rotate_found :
      RotateRefreshTokenRequest → String → ℕ → Option RefreshToken → Handler T.Rows RefreshToken
  rotate_found q id now none rows = (rows, throw internal_error)
  rotate_found q id now (some t) rows =
      if not (is_active t.status)
      then (rows, throw internal_error)
      else (if ltb t.expires_at now
          then (rows, throw internal_error)
          else insert (successor q id now t) (T.put rows (rotated_token now t)))

  unfoldable pub rotate_refresh_token :
      RotateRefreshTokenRequest → String → ℕ → Handler T.Rows RefreshToken
  rotate_refresh_token q id now rows = rotate_found q id now (T.find rows q.current_token_hash) rows

  abbrev pub some_result : T.Rows × Result RefreshToken → T.Rows × Result (Option RefreshToken)
  some_result (rows, ok t) = (rows, ok (some t))
  some_result (rows, throw e) = (rows, throw e)

  abbrev pub validate_found :
      RotateRefreshTokenRequest
      → String
      → ℕ
      → ℕ
      → Option RefreshToken
      → Handler T.Rows (Option RefreshToken)
  validate_found q id now later none rows = (rows, ok none)
  validate_found q id now later (some t) rows =
      if not (is_active t.status)
      then (rows, ok none)
      else (if ltb t.expires_at now
          then (rows, ok none)
          else some_result (rotate_refresh_token q id later (T.put rows (used_token now t))))

  -- `later` is the clock of the rotation behind the validation.
  unfoldable pub validate_and_rotate_token :
      RotateRefreshTokenRequest → String → ℕ → ℕ → Handler T.Rows (Option RefreshToken)
  validate_and_rotate_token q id now later rows =
      validate_found q id now later (T.find rows q.current_token_hash) rows

  abbrev pub revoke_found : Option String → ℕ → Option RefreshToken → Handler T.Rows RefreshToken
  revoke_found reason now none rows = (rows, throw internal_error)
  revoke_found reason now (some t) rows =
      let t' = revoked_token now (reason_or "Revoked by user" reason) t in (T.put rows t', ok t')

  unfoldable pub revoke_refresh_token : String → Option String → ℕ → Handler T.Rows RefreshToken
  revoke_refresh_token hash reason now rows = revoke_found reason now (T.find rows hash) rows

  -- `where: { userId, status: ACTIVE }`
  abbrev pub is_active_of : String → RefreshToken → Bool
  is_active_of user t = str_eq t.user_id user && is_active t.status

  unfoldable pub revoke_user_refresh_tokens : String → Option String → ℕ → T.Rows → T.Rows
  revoke_user_refresh_tokens user reason now rows =
      T.update_many rows (is_active_of user)
        (revoked_token now (reason_or "All tokens revoked" reason))

  abbrev pub accepted : ℕ → Option RefreshToken → Option RefreshToken
  accepted now none = none
  accepted now (some t) =
      if not (is_active t.status) then none else (if ltb t.expires_at now then none else some t)

  unfoldable pub validate_refresh_token : String → ℕ → T.Rows → Option RefreshToken
  validate_refresh_token hash now rows = accepted now (T.find rows hash)
