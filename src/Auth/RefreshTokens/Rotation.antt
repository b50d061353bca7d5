-- ===== src/Auth/RefreshTokens/Rotation.antt =====
-- What the exchange of a refresh token promises, by its outcome (refresh-token.service.ts).
use mux_backend.Prelude.{
  ℕ, String, ◌≡◌, refl, sym, ap, ◌∙◌, subst, ◌≢◌, ◌⊎◌, inl, inr, true, Option, none, some, List,
  ltb, if◌then◌else◌, Bool-cases, Option-cases,
}
use mux_backend.Prelude.Http.{internal_error, Result, ok, throw}
use mux_backend.Prelude.Rows.{RowTable}
use mux_backend.Auth.RefreshTokens.{
  RefreshToken, active, RotateRefreshTokenRequest, token_key, is_active, rotated_token, used_token,
  successor, insert, insert_at, rotate_found, rotate_refresh_token, some_result, validate_found,
  validate_and_rotate_token, accepted, validate_refresh_token,
}
use mux_backend.Auth.RefreshTokens.Once.{Request, run, Spent, run-Spent}

module _ (T : RowTable String RefreshToken token_key) where
  abbrev pub Traded :
      RotateRefreshTokenRequest → ℕ → ℕ → T.Rows → T.Rows × Result (Option RefreshToken) → Type 0
  Traded q now later rows (rows', ok none) =
      (rows' ≡ rows) × (validate_refresh_token T q.current_token_hash now rows ≡ none)
  Traded q now later rows (rows', ok (some new)) =
      (t : RefreshToken) × (validate_refresh_token T q.current_token_hash now rows ≡ some t)
      × (T.find rows q.new_token_hash ≡ none)
      × (T.find rows' q.current_token_hash ≡ some (rotated_token later (used_token now t)))
      × (T.find rows' q.new_token_hash ≡ some new)
      × (new.status ≡ active)
      × (new.user_id ≡ t.user_id)
      × (new.previous_token_id ≡ some t.id)
      × ((k : String)
          → k ≢ q.current_token_hash
          → k ≢ q.new_token_hash
          → T.find rows' k ≡ T.find rows k)
  Traded q now later rows (rows', throw e) =
      (t : RefreshToken) × (validate_refresh_token T q.current_token_hash now rows ≡ some t)
      × ((ltb t.expires_at later ≡ true)
          ⊎ ((u : RefreshToken) × (T.find rows q.new_token_hash ≡ some u)))
      × ((k : String) → k ≢ q.current_token_hash → T.find rows' k ≡ T.find rows k)

  find-put_at :
      (rows : T.Rows) (k : String) (t : RefreshToken)
      → t.token_hash ≡ k
      → T.find (T.put rows t) k ≡ some t
  find-put_at rows k t e = subst (λ j. T.find (T.put rows t) j ≡ some t) e (T.find-put rows t)

  find-put_other :
      (rows : T.Rows) (j k : String) (t : RefreshToken)
      → t.token_hash ≡ k
      → j ≢ k
      → T.find (T.put rows t) j ≡ T.find rows j
  find-put_other rows j k t e n = T.find-put_ne rows t j (λ p. n (p ∙ e))

  -- The rows once a token is used and rotated.
  abbrev after : ℕ → ℕ → RefreshToken → T.Rows → T.Rows
  after now later t rows =
      T.put (T.put rows (used_token now t)) (rotated_token later (used_token now t))

  find-after :
      (now later : ℕ) (t : RefreshToken) (rows : T.Rows) (j k : String)
      → t.token_hash ≡ k
      → j ≢ k
      → T.find (after now later t rows) j ≡ T.find rows j
  find-after now later t rows j k e n =
      find-put_other (T.put rows (used_token now t)) j k (rotated_token later (used_token now t)) e
        n
      ∙ find-put_other rows j k (used_token now t) e n

  -- A rotation of a token that has just been used.
  rotate_used :
      (q : RotateRefreshTokenRequest) (id : String) (now later : ℕ) (t : RefreshToken)
      (rows : T.Rows)
      → t.token_hash ≡ q.current_token_hash
      → is_active t.status ≡ true
      → rotate_refresh_token T q id later (T.put rows (used_token now t)) ≡ (
          if ltb t.expires_at later
          then (T.put rows (used_token now t), throw internal_error)
          else insert T (successor T q id later (used_token now t)) (after now later t rows))
  unfolding rotate_refresh_token
  rotate_used q id now later t rows e live =
      ap (λ o. rotate_found T q id later o (T.put rows (used_token now t)))
        (find-put_at rows q.current_token_hash (used_token now t) e)
      ∙ rw live refl

  exchange_new :
      (q : RotateRefreshTokenRequest) (id : String) (now later : ℕ) (t : RefreshToken)
      (rows : T.Rows)
      → Discrete String
      → T.find rows q.current_token_hash ≡ some t
      → validate_refresh_token T q.current_token_hash now rows ≡ some t
      → Traded q now later rows (
          some_result T
            (insert T (successor T q id later (used_token now t)) (after now later t rows)))
  unfolding insert
  exchange_new q id now later t rows dec there good =
      let e = T.key-find rows q.current_token_hash t there in
      let new = successor T q id later (used_token now t) in
      let rows' = after now later t rows in
      elim (dec q.new_token_hash q.current_token_hash) [
        | yes p ↦
            rw
              (
                ap (T.find rows') p
                    ∙ find-put_at (T.put rows (used_token now t)) q.current_token_hash
                        (rotated_token later (used_token now t)) e,
                insert_at,
              )
              (
                t,
                good,
                inr (t, ap (T.find rows) p ∙ there),
                λ k n. find-after now later t rows k q.current_token_hash e n,
              )
        | no p ↦
            let same = find-after now later t rows q.new_token_hash q.current_token_hash e p in
            elim (Option-cases (T.find rows q.new_token_hash)) [
              | inr (u, taken) ↦
                  rw (same ∙ taken, insert_at)
                    (
                      t,
                      good,
                      inr (u, taken),
                      λ k n. find-after now later t rows k q.current_token_hash e n,
                    )
              | inl free ↦
                  rw (same ∙ free, insert_at)
                    (
                      t,
                      good,
                      free,
                      find-put_other rows' q.current_token_hash q.new_token_hash new refl
                            (λ i. p (sym i))
                          ∙ find-put_at (T.put rows (used_token now t)) q.current_token_hash
                              (rotated_token later (used_token now t)) e,
                      T.find-put rows' new,
                      refl,
                      refl,
                      refl,
                      λ k n m.
                          find-put_other rows' k q.new_token_hash new refl m
                          ∙ find-after now later t rows k q.current_token_hash e n,
                    )
            ]
      ]

  -- An exchange of a token that is unknown, not active or expired changes nothing and returns none.
  -- One that returns a new token has accepted the current one: it is marked as rotated, the new one
  -- is stored under its hash, which was free, active, of the same user and with a link to the old
  -- one, and the other tokens are as before. One that throws has accepted the current token, which
  -- then expired or whose new hash was taken, and no other token is changed.
  pub exchange_outcome :
      (q : RotateRefreshTokenRequest) (id : String) (now later : ℕ) (rows : T.Rows)
      → Discrete String
      → Traded q now later rows (validate_and_rotate_token T q id now later rows)
  unfolding validate_and_rotate_token validate_refresh_token
  exchange_outcome q id now later rows dec =
      elim (Option-cases (T.find rows q.current_token_hash)) [
        | inl gone ↦ rw (gone, validate_found) (refl, rw (gone, accepted) refl)
        | inr (t, there) ↦ rw (there, validate_found) (go t there)
      ]
    where
      go :
          (t : RefreshToken)
          → T.find rows q.current_token_hash ≡ some t
          → Traded q now later rows (validate_found T q id now later (some t) rows)
      go t there = elim (Bool-cases (is_active t.status)) [
        | inr over ↦ rw over (refl, rw (there, accepted, over) refl)
        | inl live ↦ elim (Bool-cases (ltb t.expires_at now)) [
          | inl late ↦ rw (live, late) (refl, rw (there, accepted, live, late) refl)
          | inr timely ↦
              let good : accepted T now (T.find rows q.current_token_hash) ≡ some t =
                rw (there, accepted, live, timely) refl in
              let e = T.key-find rows q.current_token_hash t there in
              rw (live, timely, rotate_used q id now later t rows e live)
                (elim (Bool-cases (ltb t.expires_at later)) [
                  | inl lapsed ↦ rw lapsed (
                    t,
                    good,
                    inl lapsed,
                    λ k n. find-put_other rows k q.current_token_hash (used_token now t) e n,
                  )
                  | inr still ↦ rw still (exchange_new q id now later t rows dec there good)
                ])
        ]
      ]

  exchanged-Spent :
      (q : RotateRefreshTokenRequest) (now later : ℕ) (rows : T.Rows)
      (r : T.Rows × Result (Option RefreshToken)) (new : RefreshToken)
      → r.1 ≡ ok (some new)
      → Traded q now later rows r
      → Spent T q.current_token_hash r.0
  exchanged-Spent q now later rows (rows', ok none) new e x = absurd (none_new e)
    where
      none_new : ◌≡◌ {A = Result (Option RefreshToken)} (ok none) (ok (some new)) → ⊥
      none_new e = cc
  exchanged-Spent q now later rows (rows', ok (some t')) new e x =
      (rotated_token later (used_token now x.0), x.3, refl)
  exchanged-Spent q now later rows (rows', throw c) new e x = absurd (threw e)
    where
      threw : ◌≡◌ {A = Result (Option RefreshToken)} (throw c) (ok (some new)) → ⊥
      threw e = cc

  Spent-refused :
      (q : RotateRefreshTokenRequest) (id : String) (now later : ℕ) (rows : T.Rows)
      → Spent T q.current_token_hash rows
      → validate_and_rotate_token T q id now later rows ≡ (rows, ok none)
  unfolding validate_and_rotate_token
  Spent-refused q id now later rows (t, there, over) = rw (there, validate_found, over) refl

  -- A refresh token is exchanged at most once: after an exchange that returns a new token, whatever
  -- tokens are created, rotated, exchanged and revoked, at whatever times, a second exchange of the
  -- same hash returns none and changes nothing.
  pub exchange_once :
      (q r : RotateRefreshTokenRequest) (id : String) (now later : ℕ) (rows : T.Rows)
      (new : RefreshToken) (rs : List Request) (id' : String) (now' later' : ℕ)
      → Discrete String
      → (validate_and_rotate_token T q id now later rows).1 ≡ ok (some new)
      → r.current_token_hash ≡ q.current_token_hash
      → let rows' = run T (validate_and_rotate_token T q id now later rows).0 rs in
        validate_and_rotate_token T r id' now' later' rows' ≡ (rows', ok none)
  exchange_once q r id now later rows new rs id' now' later' dec e same =
      let out = validate_and_rotate_token T q id now later rows in
      Spent-refused r id' now' later' (run T out.0 rs) (
        subst (λ h. Spent T h (run T out.0 rs)) (sym same)
          (run-Spent T out.0 rs q.current_token_hash dec (
            exchanged-Spent q now later rows out new e (exchange_outcome q id now later rows dec))))
