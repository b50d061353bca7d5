-- ===== src/ApiKeys/Service/Validation.antt =====
-- When an API key is accepted (api-key.service.ts).
use mux_backend.Prelude.{
  String, ◌≡◌, refl, sym, ap, ◌∙◌, subst, ◌↔◌, inl, inr, true, false, none, some, Bool-cases,
  Option-cases,
}
use mux_backend.Prelude.Http.{Exception, Result, ok, throw}
use Prim.Native.String.{◌++◌ as str_append}
use text.Mathlib.Text.{starts_with}
use text.Mathlib.TextPositions.{starts_with-append}
use mux_backend.Prelude.Rows.{RowTable}
use mux_backend.ApiKeys.Service.{
  ApiKeyStatus, active, revoked, expired, suspended, ApiKey, ApiKeyContext, CreateApiKeyRequest,
  CreateApiKeyResult, Environment, Project, hash_key, is_past, new_row, plain_text_key_of,
  environment_word, insert_at, create_in, create_api_key, context, admit_active, admit,
  validate_api_key,
}

module _ (A : RowTable String ApiKey hash_key) where
  -- The key of the text is stored, active, and neither its grace period nor its life has ended.
  abbrev pub IsUsable : String → Environment → A.Rows → ApiKey → Type 0
  IsUsable plain env rows k =
      (starts_with plain "mux_" ≡ true)
      × (A.find rows (env.hash_api_key plain) ≡ some k)
      × (k.status ≡ active)
      × (is_past env.now k.grace_period_ends_at ≡ false)
      × (is_past env.now k.expires_at ≡ false)

  throw_ok :
      {c : ApiKeyContext} {e : Exception} → ◌≡◌ {A = Result ApiKeyContext} (throw e) (ok c) → ⊥
  throw_ok e = cc

  ok_eq : {c d : ApiKeyContext} → ◌≡◌ {A = Result ApiKeyContext} (ok c) (ok d) → c ≡ d
  ok_eq e = cc

  admit_active-ok :
      (env : Environment) (k : ApiKey) (rows : A.Rows) (c : ApiKeyContext)
      → (admit_active A env k rows).1 ≡ ok c
      → (is_past env.now k.grace_period_ends_at ≡ false)
        × (is_past env.now k.expires_at ≡ false)
        × (context A k ≡ c)
  admit_active-ok env k rows c e = elim (Bool-cases (is_past env.now k.grace_period_ends_at)) [
    | inl over ↦ absurd (throw_ok (rw over at e))
    | inr grace ↦ elim (Bool-cases (is_past env.now k.expires_at)) [
      | inl late ↦ absurd (throw_ok (rw (grace, late) at e))
      | inr timely ↦ elim (Bool-cases env.touches) [
        | inl t ↦ (grace, timely, ok_eq (rw (grace, timely, t) at e))
        | inr t ↦ (grace, timely, ok_eq (rw (grace, timely, t) at e))
      ]
    ]
  ]

  active-admit :
      (env : Environment) (k : ApiKey) (rows : A.Rows)
      → is_past env.now k.grace_period_ends_at ≡ false
      → is_past env.now k.expires_at ≡ false
      → (admit_active A env k rows).1 ≡ ok (context A k)
  active-admit env k rows grace timely = elim (Bool-cases env.touches) [
    | inl t ↦ rw (grace, timely, t) refl
    | inr t ↦ rw (grace, timely, t) refl
  ]

  admit-ok :
      (env : Environment) (k : ApiKey) (s : ApiKeyStatus) (rows : A.Rows) (c : ApiKeyContext)
      → (admit A env k s rows).1 ≡ ok c
      → (s ≡ active)
        × (is_past env.now k.grace_period_ends_at ≡ false)
        × (is_past env.now k.expires_at ≡ false)
        × (context A k ≡ c)
  admit-ok env k revoked rows c e = absurd (throw_ok e)
  admit-ok env k expired rows c e = absurd (throw_ok e)
  admit-ok env k suspended rows c e = absurd (throw_ok e)
  admit-ok env k active rows c e =
      let (grace, timely, same) = admit_active-ok env k rows c e in (refl, grace, timely, same)

  pub usable-validate :
      (plain : String) (env : Environment) (rows : A.Rows) (k : ApiKey)
      → IsUsable plain env rows k
      → (validate_api_key A plain env rows).1 ≡ ok (context A k)
  unfolding validate_api_key
  usable-validate plain env rows k (fits, there, status, grace, timely) =
      rw (fits, there)
        (ap (λ s. (admit A env k s rows).1) status ∙ active-admit env k rows grace timely)

  -- A key is accepted, with its project and developer as the answer, exactly when it starts with
  -- `mux_`, its hash is stored, its row is active, and neither its grace period nor its life has
  -- ended; both ends count as not past.
  pub validate-ok_iff :
      (plain : String) (env : Environment) (rows : A.Rows) (c : ApiKeyContext)
      → ((validate_api_key A plain env rows).1 ≡ ok c)
        ↔ ((k : ApiKey) × IsUsable plain env rows k × (context A k ≡ c))
  unfolding validate_api_key
  validate-ok_iff plain env rows c = (
    λ e. elim (Bool-cases (starts_with plain "mux_")) [
      | inr bad ↦ absurd (throw_ok (rw bad at e))
      | inl fits ↦ elim (Option-cases (A.find rows (env.hash_api_key plain))) [
        | inl gone ↦ absurd (throw_ok (rw (fits, gone) at e))
        | inr (k, there) ↦
            let (status, grace, timely, same) =
              admit-ok env k k.status rows c (rw (fits, there) at e) in
            (k, (fits, there, status, grace, timely), same)
      ]
    ],
    λ (k, usable, same). usable-validate plain env rows k usable ∙ ap ok same,
  )

  result_eq : {r s : CreateApiKeyResult} → ◌≡◌ {A = Result CreateApiKeyResult} (ok r) (ok s) → r ≡ s
  result_eq e = cc

  result_throw :
      {r : CreateApiKeyResult} {e : Exception}
      → ◌≡◌ {A = Result CreateApiKeyResult} (throw e) (ok r)
      → ⊥
  result_throw e = cc

  -- A creation that returns: its project, its row and what it returns.
  pub create-ok :
      (q : CreateApiKeyRequest) (env : Environment) (rows : A.Rows) (r : CreateApiKeyResult)
      → (create_api_key A q env rows).1 ≡ ok r
      → (p : Project) × (env.find_project q.project_id ≡ some p)
        × (A.find rows (new_row q env p).key_hash ≡ none)
        × ((create_api_key A q env rows).0 ≡ A.put rows (new_row q env p))
        × (r ≡ record {
          api_key = new_row q env p;
          plain_text_key = plain_text_key_of p env.random_part;
        })
  unfolding create_api_key
  create-ok q env rows r e = elim (Option-cases (env.find_project q.project_id)) [
    | inl gone ↦ absurd (result_throw (rw (gone, create_in) at e))
    | inr (p, there) ↦ elim (Option-cases (A.find rows (new_row q env p).key_hash)) [
      | inr (k, taken) ↦ absurd (result_throw (rw (there, create_in, taken, insert_at) at e))
      | inl free ↦ (
        p,
        there,
        free,
        rw (there, create_in, free, insert_at) refl,
        sym (result_eq (rw (there, create_in, free, insert_at) at e)),
      )
    ]
  ]

  -- The text that a creation returns is accepted right after it and until the key expires, by any
  -- call with the same hash function, with the row of the creation as the answer.
  pub validate-create :
      (q : CreateApiKeyRequest) (env later : Environment) (rows : A.Rows) (r : CreateApiKeyResult)
      → (create_api_key A q env rows).1 ≡ ok r
      → later.hash_api_key ≡ env.hash_api_key
      → is_past later.now q.expires_at ≡ false
      → (validate_api_key A r.plain_text_key later (create_api_key A q env rows).0).1
        ≡ ok (context A r.api_key)
  validate-create q env later rows r e hash timely =
      let (p, there, free, grown, same) = create-ok q env rows r e in
      let k = new_row q env p in
      let plain = plain_text_key_of p env.random_part in
      subst
        (λ (x : CreateApiKeyResult).
          (validate_api_key A x.plain_text_key later (create_api_key A q env rows).0).1
          ≡ ok (context A x.api_key))
        (sym same)
        (subst (λ rows'. (validate_api_key A plain later rows').1 ≡ ok (context A k)) (sym grown)
          (usable-validate plain later (A.put rows k) k (
            starts_with-append "mux_"
                (str_append (environment_word p) (str_append "_" env.random_part)),
            ap (λ h. A.find (A.put rows k) (h plain)) hash ∙ A.find-put rows k,
            refl,
            refl,
            timely,
          )))
