-- ===== src/Auth/RefreshTokens/Once.antt =====
-- A refresh token is used once (refresh-token.service.ts): nothing that the service does makes a
-- token active again.
use mux_backend.Prelude.{
  ℕ, String, ◌≡◌, refl, sym, ap, ◌∙◌, subst, inl, inr, false, Option, none, some, List, [], ◌∷◌,
  arith, ltb, if◌then◌else◌, Bool-cases, Option-cases,
}
use mux_backend.Prelude.Http.{Result, ok, throw}
use mux_backend.Prelude.Rows.{RowTable, change_row, none-some}
use mux_backend.Auth.RefreshTokens.{
  RefreshToken, CreateRefreshTokenRequest, RotateRefreshTokenRequest, token_key, is_active,
  new_token, rotated_token, used_token, revoked_token, successor, insert, insert_at, reason_or,
  create_refresh_token, rotate_found, rotate_refresh_token, some_result, validate_found,
  validate_and_rotate_token, revoke_found, revoke_refresh_token, is_active_of,
  revoke_user_refresh_tokens,
}

-- The calls of the service that change the table.
pub data Request : Type 0 where
  creates : CreateRefreshTokenRequest → String → ℕ → Request
  rotates : RotateRefreshTokenRequest → String → ℕ → Request
  exchanges : RotateRefreshTokenRequest → String → ℕ → ℕ → Request
  revokes : String → Option String → ℕ → Request
  revokes_user : String → Option String → ℕ → Request

module _ (T : RowTable String RefreshToken token_key) where
  unfoldable pub step : T.Rows → Request → T.Rows
  step rows (creates q id now) = (create_refresh_token T q id now rows).0
  step rows (rotates q id now) = (rotate_refresh_token T q id now rows).0
  step rows (exchanges q id now later) = (validate_and_rotate_token T q id now later rows).0
  step rows (revokes hash reason now) = (revoke_refresh_token T hash reason now rows).0
  step rows (revokes_user user reason now) = revoke_user_refresh_tokens T user reason now rows

  unfoldable pub run : T.Rows → List Request → T.Rows
  run rows [] = rows
  run rows (q ∷ qs) = run (step rows q) qs

  -- There is a token of the hash, and it is not active.
  abbrev pub Spent : String → T.Rows → Type 0
  Spent hash rows = (t : RefreshToken) × (T.find rows hash ≡ some t) × (is_active t.status ≡ false)

  put-Spent :
      (rows : T.Rows) (hash : String) (t : RefreshToken)
      → Discrete String
      → (t.token_hash ≡ hash → is_active t.status ≡ false)
      → Spent hash rows
      → Spent hash (T.put rows t)
  put-Spent rows hash t dec h (u, there, over) = elim (dec hash t.token_hash) [
    | yes p ↦
        (t, subst (λ k. T.find (T.put rows t) k ≡ some t) (sym p) (T.find-put rows t), h (sym p))
    | no p ↦ (u, T.find-put_ne rows t hash p ∙ there, over)
  ]

  insert-Spent :
      (rows : T.Rows) (hash : String) (t : RefreshToken)
      → Discrete String
      → Spent hash rows
      → Spent hash (insert T t rows).0
  unfolding insert
  insert-Spent rows hash t dec (u, there, over) = elim (Option-cases (T.find rows t.token_hash)) [
    | inr (v, taken) ↦ rw (taken, insert_at) (u, there, over)
    | inl free ↦
        rw (free, insert_at)
          (put-Spent rows hash t dec
            (λ p. absurd (none-some (sym free ∙ ap (T.find rows) p ∙ there))) (u, there, over))
  ]

  rotate-Spent :
      (q : RotateRefreshTokenRequest) (id : String) (now : ℕ) (rows : T.Rows) (hash : String)
      → Discrete String
      → Spent hash rows
      → Spent hash (rotate_refresh_token T q id now rows).0
  unfolding rotate_refresh_token
  rotate-Spent q id now rows hash dec s = go (T.find rows q.current_token_hash)
    where
      go : (o : Option RefreshToken) → Spent hash (rotate_found T q id now o rows).0
      go none = s
      go (some t) = elim (Bool-cases (is_active t.status)) [
        | inr over ↦ rw over s
        | inl live ↦ elim (Bool-cases (ltb t.expires_at now)) [
          | inl late ↦ rw (live, late) s
          | inr timely ↦
              rw (live, timely)
                (insert-Spent (T.put rows (rotated_token now t)) hash (successor T q id now t) dec
                  (put-Spent rows hash (rotated_token now t) dec (λ p. refl) s))
        ]
      ]

  some_result-rows : (r : T.Rows × Result RefreshToken) → (some_result T r).0 ≡ r.0
  some_result-rows (rows, ok t) = refl
  some_result-rows (rows, throw e) = refl

  exchange-Spent :
      (q : RotateRefreshTokenRequest) (id : String) (now later : ℕ) (rows : T.Rows) (hash : String)
      → Discrete String
      → Spent hash rows
      → Spent hash (validate_and_rotate_token T q id now later rows).0
  unfolding validate_and_rotate_token
  exchange-Spent q id now later rows hash dec s = go (T.find rows q.current_token_hash) refl
    where
      some_eq : {a b : RefreshToken} → ◌≡◌ {A = Option RefreshToken} (some a) (some b) → a ≡ b
      some_eq e = cc

      go :
          (o : Option RefreshToken)
          → T.find rows q.current_token_hash ≡ o
          → Spent hash (validate_found T q id now later o rows).0
      go none e = s
      go (some t) e = elim (Bool-cases (is_active t.status)) [
        | inr over ↦ rw over s
        | inl live ↦ elim (Bool-cases (ltb t.expires_at now)) [
          | inl late ↦ rw (live, late) s
          | inr timely ↦
              rw (live, timely)
                (subst (Spent hash)
                  (sym (
                    some_result-rows
                      (rotate_refresh_token T q id later (T.put rows (used_token now t)))))
                  (rotate-Spent q id later (T.put rows (used_token now t)) hash dec (
                    put-Spent rows hash (used_token now t) dec
                      (λ p.
                        let at_hash : T.find rows hash ≡ some t =
                          subst (λ k. T.find rows k ≡ some t)
                            (sym (T.key-find rows q.current_token_hash t e) ∙ p) e in
                        subst (λ (x : RefreshToken). is_active x.status ≡ false)
                          (some_eq (sym s.1 ∙ at_hash)) s.2)
                      s)))
        ]
      ]

  step-Spent :
      (rows : T.Rows) (r : Request) (hash : String)
      → Discrete String
      → Spent hash rows
      → Spent hash (step rows r)
  unfolding step create_refresh_token revoke_refresh_token revoke_user_refresh_tokens
  step-Spent rows (creates q id now) hash dec s =
      insert-Spent rows hash (new_token q none id now) dec s
  step-Spent rows (rotates q id now) hash dec s = rotate-Spent q id now rows hash dec s
  step-Spent rows (exchanges q id now later) hash dec s =
      exchange-Spent q id now later rows hash dec s
  step-Spent rows (revokes key reason now) hash dec s = go (T.find rows key)
    where
      go : (o : Option RefreshToken) → Spent hash (revoke_found T reason now o rows).0
      go none = s
      go (some t) =
          put-Spent rows hash (revoked_token now (reason_or "Revoked by user" reason) t) dec
            (λ p. refl) s
  step-Spent rows (revokes_user user reason now) hash dec (t, there, over) =
      let f = revoked_token now (reason_or "All tokens revoked" reason) in
      (
        t,
        T.find-update_many rows (is_active_of T user) f hash (λ v. refl)
            ∙ ap (change_row (is_active_of T user) f) there
            ∙ ap some (kept f),
        over,
      )
    where
      kept : (f : RefreshToken → RefreshToken) → (if is_active_of T user t then f t else t) ≡ t
      kept f = ground arith

  pub run-Spent :
      (rows : T.Rows) (rs : List Request) (hash : String)
      → Discrete String
      → Spent hash rows
      → Spent hash (run rows rs)
  unfolding run
  run-Spent rows [] hash dec s = s
  run-Spent rows (r ∷ rs) hash dec s =
      run-Spent (step rows r) rs hash dec (step-Spent rows r hash dec s)
