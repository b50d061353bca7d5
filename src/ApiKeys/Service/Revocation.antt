-- ===== src/ApiKeys/Service/Revocation.antt =====
-- A key that is not active is never accepted again (api-key.service.ts).
use mux_backend.Prelude.{
  ℕ, String, ◌≡◌, refl, sym, ap, ◌∙◌, subst, inl, inr, Bool, true, false, not, Option, none, some,
  List, [], ◌∷◌, if◌then◌else◌, Bool-cases, Option-cases,
}
use mux_backend.Prelude.Http.{Exception, unauthorized, Result, ok, throw}
use text.Mathlib.Text.{starts_with}
use mux_backend.Prelude.Rows.{RowTable, none-some}
use mux_backend.ApiKeys.Service.{
  ApiKeyStatus, active, revoked, expired, suspended, ApiKey, ApiKeyContext, CreateApiKeyRequest,
  CreateApiKeyResult, RotateApiKeyRequest, Environment, Project, hash_key, has_id, is_past,
  is_foreign, is_revoked, new_row, renewal, expired_row, touched_row, revoked_row, grace_row,
  insert_at, create_in, create_api_key, admit_active, admit, validate_api_key, revoke_found,
  revoke_api_key, with_grace, rotate_found, rotate_api_key,
}

-- The calls of the service that change the table.
pub data Request : Type 0 where
  creates : CreateApiKeyRequest → Environment → Request
  validates : String → Environment → Request
  revokes : String → Option String → Option String → ℕ → Request
  rotates : RotateApiKeyRequest → Option String → Environment → Request

abbrev pub is_active : ApiKeyStatus → Bool
is_active active = true
is_active _ = false

module _ (A : RowTable String ApiKey hash_key) where
  unfoldable pub step : A.Rows → Request → A.Rows
  step rows (creates q env) = (create_api_key A q env rows).0
  step rows (validates plain env) = (validate_api_key A plain env rows).0
  step rows (revokes id reason developer now) = (revoke_api_key A id reason developer now rows).0
  step rows (rotates q developer env) = (rotate_api_key A q developer env rows).0

  unfoldable pub run : A.Rows → List Request → A.Rows
  run rows [] = rows
  run rows (q ∷ qs) = run (step rows q) qs

  -- There is a key of the hash, and it is not active.
  abbrev pub IsDead : String → A.Rows → Type 0
  IsDead hash rows = (k : ApiKey) × (A.find rows hash ≡ some k) × (is_active k.status ≡ false)

  some_eq : {a b : ApiKey} → ◌≡◌ {A = Option ApiKey} (some a) (some b) → a ≡ b
  some_eq e = cc

  put-IsDead :
      (rows : A.Rows) (hash : String) (k : ApiKey)
      → Discrete String
      → (k.key_hash ≡ hash → is_active k.status ≡ false)
      → IsDead hash rows
      → IsDead hash (A.put rows k)
  put-IsDead rows hash k dec h (u, there, over) = elim (dec hash k.key_hash) [
    | yes p ↦
        (k, subst (λ j. A.find (A.put rows k) j ≡ some k) (sym p) (A.find-put rows k), h (sym p))
    | no p ↦ (u, A.find-put_ne rows k hash p ∙ there, over)
  ]

  -- A stored row is dead if its hash is.
  stored-dead :
      (rows : A.Rows) (hash : String) (k : ApiKey)
      → IsDead hash rows
      → A.find rows k.key_hash ≡ some k
      → k.key_hash ≡ hash
      → is_active k.status ≡ false
  stored-dead rows hash k (u, there, over) e p =
      subst (λ (x : ApiKey). is_active x.status ≡ false)
        (some_eq (sym there ∙ subst (λ j. A.find rows j ≡ some k) p e)) over

  create-IsDead :
      (q : CreateApiKeyRequest) (env : Environment) (rows : A.Rows) (hash : String)
      → Discrete String
      → IsDead hash rows
      → IsDead hash (create_api_key A q env rows).0
  unfolding create_api_key
  create-IsDead q env rows hash dec (u, there, over) = go (env.find_project q.project_id)
    where
      go : (o : Option Project) → IsDead hash (create_in A q env o rows).0
      go none = (u, there, over)
      go (some p) =
          let k = new_row q env p in
          elim (Option-cases (A.find rows k.key_hash)) [
            | inr (v, taken) ↦ rw (taken, insert_at) (u, there, over)
            | inl free ↦
                rw (free, insert_at)
                  (put-IsDead rows hash k dec
                    (λ p. absurd (none-some (sym free ∙ ap (A.find rows) p ∙ there)))
                    (u, there, over))
          ]

  admit_active-IsDead :
      (env : Environment) (k : ApiKey) (rows : A.Rows) (hash : String)
      → Discrete String
      → A.find rows k.key_hash ≡ some k
      → IsDead hash rows
      → IsDead hash (admit_active A env k rows).0
  admit_active-IsDead env k rows hash dec e d =
      elim (Bool-cases (is_past env.now k.grace_period_ends_at)) [
        | inl over ↦ rw over d
        | inr grace ↦ elim (Bool-cases (is_past env.now k.expires_at)) [
          | inl late ↦
              rw (grace, late) (put-IsDead rows hash (expired_row env.now k) dec (λ p. refl) d)
          | inr timely ↦ elim (Bool-cases env.touches) [
            | inr t ↦ rw (grace, timely, t) d
            | inl t ↦
                rw (grace, timely, t)
                  (put-IsDead rows hash (touched_row env.now k) dec (stored-dead rows hash k d e) d)
          ]
        ]
      ]

  validate-IsDead :
      (plain : String) (env : Environment) (rows : A.Rows) (hash : String)
      → Discrete String
      → IsDead hash rows
      → IsDead hash (validate_api_key A plain env rows).0
  unfolding validate_api_key
  validate-IsDead plain env rows hash dec d =
      elim (Option-cases (A.find rows (env.hash_api_key plain))) [
        | inl gone ↦ rw gone (pick (rows, throw unauthorized) d)
        | inr (k, there) ↦ rw there (
            pick (admit A env k k.status rows) (
              go k k.status (
                subst (λ h. A.find rows h ≡ some k)
                  (sym (A.key-find rows (env.hash_api_key plain) k there)) there)))
      ]
    where
      pick :
          (x : A.Rows × Result ApiKeyContext)
          → IsDead hash x.0
          → IsDead hash (if not (starts_with plain "mux_") then (rows, throw unauthorized) else x).0
      pick x h = elim (Bool-cases (starts_with plain "mux_")) [ inl f ↦ rw f h | inr f ↦ rw f d ]

      go :
          (k : ApiKey) (s : ApiKeyStatus)
          → A.find rows k.key_hash ≡ some k
          → IsDead hash (admit A env k s rows).0
      go k revoked e = d
      go k suspended e = d
      go k expired e = d
      go k active e = admit_active-IsDead env k rows hash dec e d

  revoke-IsDead :
      (id : String) (reason developer : Option String) (now : ℕ) (rows : A.Rows) (hash : String)
      → Discrete String
      → IsDead hash rows
      → IsDead hash (revoke_api_key A id reason developer now rows).0
  unfolding revoke_api_key
  revoke-IsDead id reason developer now rows hash dec d = go (A.find_first rows (has_id id))
    where
      go : (o : Option ApiKey) → IsDead hash (revoke_found A reason developer now o rows).0
      go none = d
      go (some k) = elim (Bool-cases (is_foreign developer k)) [
        | inl f ↦ rw f d
        | inr f ↦ elim (Bool-cases (is_revoked k.status)) [
          | inl r ↦ rw (f, r) d
          | inr r ↦ rw (f, r) (put-IsDead rows hash (revoked_row now reason k) dec (λ p. refl) d)
        ]
      ]

  with_grace-IsDead :
      (env : Environment) (k : ApiKey) (x : A.Rows × Result CreateApiKeyResult) (hash : String)
      → Discrete String
      → (k.key_hash ≡ hash → is_active k.status ≡ false)
      → IsDead hash x.0
      → IsDead hash (with_grace A env k x).0
  with_grace-IsDead env k (rows, throw e) hash dec h d = d
  with_grace-IsDead env k (rows, ok r) hash dec h d = elim (Bool-cases env.marks_old) [
    | inl m ↦ rw m (put-IsDead rows hash (grace_row env k) dec h d)
    | inr m ↦ rw m d
  ]

  rotate-IsDead :
      (q : RotateApiKeyRequest) (developer : Option String) (env : Environment) (rows : A.Rows)
      (hash : String)
      → Discrete String
      → IsDead hash rows
      → IsDead hash (rotate_api_key A q developer env rows).0
  unfolding rotate_api_key
  rotate-IsDead q developer env rows hash dec d = go (A.find_first rows (has_id q.api_key_id)) refl
    where
      go :
          (o : Option ApiKey)
          → A.find_first rows (has_id q.api_key_id) ≡ o
          → IsDead hash (rotate_found A q developer env o rows).0
      go none e = d
      go (some k) e = elim (Bool-cases (is_foreign developer k)) [
        | inl f ↦ rw f d
        | inr f ↦ rw f (
            with_grace-IsDead env k (create_api_key A (renewal A q k) env rows) hash dec
              (stored-dead rows hash k d (A.find_first_some rows (has_id q.api_key_id) k e).1)
              (create-IsDead (renewal A q k) env rows hash dec d))
      ]

  run-IsDead :
      (rows : A.Rows) (rs : List Request) (hash : String)
      → Discrete String
      → IsDead hash rows
      → IsDead hash (run rows rs)
  unfolding run step
  run-IsDead rows [] hash dec d = d
  run-IsDead rows (creates q env ∷ rs) hash dec d =
      run-IsDead (create_api_key A q env rows).0 rs hash dec (create-IsDead q env rows hash dec d)
  run-IsDead rows (validates plain env ∷ rs) hash dec d =
      run-IsDead (validate_api_key A plain env rows).0 rs hash dec
        (validate-IsDead plain env rows hash dec d)
  run-IsDead rows (revokes id reason developer now ∷ rs) hash dec d =
      run-IsDead (revoke_api_key A id reason developer now rows).0 rs hash dec
        (revoke-IsDead id reason developer now rows hash dec d)
  run-IsDead rows (rotates q developer env ∷ rs) hash dec d =
      run-IsDead (rotate_api_key A q developer env rows).0 rs hash dec
        (rotate-IsDead q developer env rows hash dec d)

  dead_refused :
      (plain : String) (env : Environment) (rows : A.Rows)
      → IsDead (env.hash_api_key plain) rows
      → validate_api_key A plain env rows ≡ (rows, throw unauthorized)
  unfolding validate_api_key
  dead_refused plain env rows (k, there, over) = elim (Bool-cases (starts_with plain "mux_")) [
    | inr f ↦ rw f refl
    | inl f ↦ rw (f, there) (go k.status over)
  ]
    where
      go :
          (s : ApiKeyStatus)
          → is_active s ≡ false
          → admit A env k s rows ≡ (rows, throw unauthorized)
      go active e = absurd (cc)
      go revoked e = refl
      go suspended e = refl
      go expired e = refl

  -- Once a key is revoked, its text is never accepted again: after a revocation that returns,
  -- whatever keys are created, validated, revoked and rotated, every validation of a text with the
  -- hash of that key is answered with unauthorized and changes nothing.
  pub revoked_refused :
      (id : String) (reason developer : Option String) (now : ℕ) (rows : A.Rows) (k : ApiKey)
      (rs : List Request) (plain : String) (env : Environment)
      → Discrete String
      → (revoke_api_key A id reason developer now rows).1 ≡ ok k
      → env.hash_api_key plain ≡ k.key_hash
      → let rows' = run (revoke_api_key A id reason developer now rows).0 rs in
        validate_api_key A plain env rows' ≡ (rows', throw unauthorized)
  unfolding revoke_api_key
  revoked_refused id reason developer now rows k rs plain env dec e hash =
      let rows' = (revoke_api_key A id reason developer now rows).0 in
      dead_refused plain env (run rows' rs) (
        subst (λ h. IsDead h (run rows' rs)) (sym hash)
          (run-IsDead rows' rs k.key_hash dec (go (A.find_first rows (has_id id)) refl e)))
    where
      ok_eq : {a b : ApiKey} → ◌≡◌ {A = Result ApiKey} (ok a) (ok b) → a ≡ b
      ok_eq e = cc

      throw_ok : {c : Exception} → ◌≡◌ {A = Result ApiKey} (throw c) (ok k) → ⊥
      throw_ok e = cc

      dead : (s : ApiKeyStatus) → is_revoked s ≡ true → is_active s ≡ false
      dead revoked r = refl
      dead active r = absurd (cc)
      dead suspended r = absurd (cc)
      dead expired r = absurd (cc)

      go :
          (o : Option ApiKey)
          → A.find_first rows (has_id id) ≡ o
          → (revoke_found A reason developer now o rows).1 ≡ ok k
          → IsDead k.key_hash (revoke_found A reason developer now o rows).0
      go none f e = absurd (throw_ok e)
      go (some v) f e = elim (Bool-cases (is_foreign developer v)) [
        | inl g ↦ absurd (throw_ok (rw g at e))
        | inr g ↦ elim (Bool-cases (is_revoked v.status)) [
          | inl r ↦
              rw (g, r)
                (subst (λ (x : ApiKey). IsDead x.key_hash rows) (ok_eq (rw (g, r) at e))
                  (v, (A.find_first_some rows (has_id id) v f).1, dead v.status r))
          | inr r ↦
              let row = revoked_row now reason v in
              rw (g, r)
                (subst (λ (x : ApiKey). IsDead x.key_hash (A.put rows row)) (ok_eq (rw (g, r) at e))
                  (row, A.find-put rows row, refl))
        ]
      ]
