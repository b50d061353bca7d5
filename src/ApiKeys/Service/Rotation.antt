-- ===== src/ApiKeys/Service/Rotation.antt =====
-- What a rotation of an API key promises, and what it does to a key that was rotated before
-- (api-key.service.ts).
use mux_backend.Prelude.{
  ◌+◌, ◌*◌, ◌≤◌, String, ◌≡◌, refl, sym, ap, ◌∙◌, subst, ◌≢◌, ◌⊎◌, inl, inr, true, false, Option,
  none, some, arith, Bool-cases, str_eq, str_eq_iff,
}
use mux_backend.Prelude.Http.{Exception, Result, ok, throw}
use text.Mathlib.Text.{starts_with}
use mux_backend.Prelude.Rows.{RowTable, none-some}
use mux_backend.ApiKeys.Service.{
  active, ApiKey, CreateApiKeyRequest, CreateApiKeyResult, RotateApiKeyRequest, Environment,
  Project, hash_key, has_id, is_past, is_foreign, new_row, renewal, grace_row, grace_seconds,
  context, create_api_key, with_grace, rotate_found, rotate_api_key, validate_api_key,
}
use mux_backend.ApiKeys.Service.Validation.{usable-validate, create-ok}

module _ (A : RowTable String ApiKey hash_key) where
  -- The key is the one that was asked for, and its developer the one that is named, if one is.
  pub record IsOwn (q : RotateApiKeyRequest) (developer : Option String) (k : ApiKey) : Type 0 where
    pub id : k.id ≡ q.api_key_id
    pub owner : (d : String) → developer ≡ some d → d ≢ "" → k.project.developer_id ≡ d

  -- Only the new key was stored.
  abbrev pub Extended : RotateApiKeyRequest → Option String → A.Rows → A.Rows → Type 0
  Extended q developer rows rows' =
      (k : ApiKey) × (new : ApiKey) × (A.find_first rows (has_id q.api_key_id) ≡ some k)
      × IsOwn q developer k
      × (A.find rows new.key_hash ≡ none)
      × (A.find rows' new.key_hash ≡ some new)
      × (new.status ≡ active)
      × ((h : String) → h ≢ new.key_hash → A.find rows' h ≡ A.find rows h)

  -- What a rotation promises, by its outcome.
  abbrev pub Rotated :
      RotateApiKeyRequest
      → Option String
      → Environment
      → A.Rows
      → A.Rows × Result CreateApiKeyResult
      → Type 0
  Rotated q developer env rows (rows', throw e) =
      (rows' ≡ rows) ⊎ ((env.marks_old ≡ false) × Extended q developer rows rows')
  Rotated q developer env rows (rows', ok r) =
      (k : ApiKey) × (A.find_first rows (has_id q.api_key_id) ≡ some k)
      × IsOwn q developer k
      × (A.find rows r.api_key.key_hash ≡ none)
      × (A.find rows' r.api_key.key_hash ≡ some r.api_key)
      × (r.api_key.status ≡ active)
      × (r.api_key.expires_at ≡ k.expires_at)
      × (r.api_key.network ≡ k.network)
      × (A.find rows' k.key_hash ≡ some (grace_row env k))
      × ((h : String) → h ≢ k.key_hash → h ≢ r.api_key.key_hash → A.find rows' h ≡ A.find rows h)
      × ((grace_row env k).grace_period_ends_at
          ≡ some (env.now + grace_seconds env.rotation_grace_seconds * 1000))
      × ((grace_row env k).status ≡ k.status)
      × ((grace_row env k).expires_at ≡ k.expires_at)

  result_throw :
      {r : CreateApiKeyResult} {e : Exception}
      → ◌≡◌ {A = Result CreateApiKeyResult} (throw e) (ok r)
      → ⊥
  result_throw e = cc

  create-throws :
      (q : CreateApiKeyRequest) (env : Environment) (rows : A.Rows) (e : Exception)
      → (create_api_key A q env rows).1 ≡ throw e
      → (create_api_key A q env rows).0 ≡ rows
  unfolding create_api_key
  create-throws q env rows e t = ground arith

  owned :
      (q : RotateApiKeyRequest) (developer : Option String) (rows : A.Rows) (k : ApiKey)
      → A.find_first rows (has_id q.api_key_id) ≡ some k
      → is_foreign developer k ≡ false
      → IsOwn q developer k
  owned q developer rows k there own = record {
    id = (str_eq_iff k.id q.api_key_id).0 (A.find_first_some rows (has_id q.api_key_id) k there).0;
    owner = λ d e n. named d n (ap (λ o. is_foreign o k) (sym e) ∙ own);
  }
    where
      named : (d : String) → d ≢ "" → is_foreign (some d) k ≡ false → k.project.developer_id ≡ d
      named d n h = elim (Bool-cases (str_eq d "")) [
        | inl empty ↦ absurd (n ((str_eq_iff d "").0 empty))
        | inr full ↦ elim (Bool-cases (str_eq k.project.developer_id d)) [
          | inl same ↦ (str_eq_iff k.project.developer_id d).0 same
          | inr other ↦ absurd (barred (rw (full, other) at h))
        ]
      ]
        where
          barred : true ≡ false → ⊥
          barred e = cc

  grown-Rotated :
      (q : RotateApiKeyRequest) (developer : Option String) (env : Environment) (rows : A.Rows)
      (k : ApiKey) (p : Project)
      → A.find_first rows (has_id q.api_key_id) ≡ some k
      → is_foreign developer k ≡ false
      → A.find rows (new_row (renewal A q k) env p).key_hash ≡ none
      → (r : CreateApiKeyResult) → r.api_key ≡ new_row (renewal A q k) env p
      → Rotated q developer env rows
          (A.put (A.put rows (new_row (renewal A q k) env p)) (grace_row env k), ok r)
  grown-Rotated q developer env rows k p there own free r same =
      let new = new_row (renewal A q k) env p in
      let at_k = (A.find_first_some rows (has_id q.api_key_id) k there).1 in
      let apart : new.key_hash ≢ k.key_hash =
        λ i. none-some (sym free ∙ ap (A.find rows) i ∙ at_k) in
      let rows' = A.put (A.put rows new) (grace_row env k) in
      (
        k,
        there,
        owned q developer rows k there own,
        ap (λ (x : ApiKey). A.find rows x.key_hash) same ∙ free,
        ap (λ (x : ApiKey). A.find rows' x.key_hash) same
            ∙ A.find-put_ne (A.put rows new) (grace_row env k) new.key_hash apart
            ∙ A.find-put rows new
            ∙ ap some (sym same),
        ap (λ (x : ApiKey). x.status) same,
        ap (λ (x : ApiKey). x.expires_at) same,
        ap (λ (x : ApiKey). x.network) same,
        A.find-put (A.put rows new) (grace_row env k),
        λ h n m.
            A.find-put_ne (A.put rows new) (grace_row env k) h n
            ∙ A.find-put_ne rows new h (λ i. m (i ∙ ap (λ (x : ApiKey). x.key_hash) (sym same))),
        refl,
        refl,
        refl,
      )

  grown-Extended :
      (q : RotateApiKeyRequest) (developer : Option String) (env : Environment) (rows : A.Rows)
      (k : ApiKey) (p : Project)
      → A.find_first rows (has_id q.api_key_id) ≡ some k
      → is_foreign developer k ≡ false
      → A.find rows (new_row (renewal A q k) env p).key_hash ≡ none
      → Extended q developer rows (A.put rows (new_row (renewal A q k) env p))
  grown-Extended q developer env rows k p there own free =
      let new = new_row (renewal A q k) env p in
      (
        k,
        new,
        there,
        owned q developer rows k there own,
        free,
        A.find-put rows new,
        refl,
        λ h n. A.find-put_ne rows new h n,
      )

  -- A rotation that returns was asked for an existing key by its owner, or by a caller that named no
  -- developer, whatever the status of the key: the new key is stored under its hash, which was free,
  -- active and with the expiry and the network of the old one; of the old row the grace period is set
  -- anew, its status and expiry are kept, and the other keys are as before. A rotation that throws
  -- changes nothing, unless the update of the old key fails: then a new active key stays stored beside
  -- the old keys, although its text was never returned.
  pub rotate_outcome :
      (q : RotateApiKeyRequest) (developer : Option String) (env : Environment) (rows : A.Rows)
      → Rotated q developer env rows (rotate_api_key A q developer env rows)
  unfolding rotate_api_key
  rotate_outcome q developer env rows = go (A.find_first rows (has_id q.api_key_id)) refl
    where
      made :
          (k : ApiKey) (x : A.Rows × Result CreateApiKeyResult)
          → A.find_first rows (has_id q.api_key_id) ≡ some k
          → is_foreign developer k ≡ false
          → create_api_key A (renewal A q k) env rows ≡ x
          → Rotated q developer env rows (with_grace A env k x)
      made k (rows', throw e) there own c = inl (
          ap (λ (x : A.Rows × Result CreateApiKeyResult). x.0) (sym c)
          ∙ create-throws (renewal A q k) env rows e
              (ap (λ (x : A.Rows × Result CreateApiKeyResult). x.1) c))
      made k (rows', ok r) there own c =
          let (p, found, free, grown, same) =
            create-ok A (renewal A q k) env rows r
              (ap (λ (x : A.Rows × Result CreateApiKeyResult). x.1) c) in
          let new_rows = sym grown ∙ ap (λ (x : A.Rows × Result CreateApiKeyResult). x.0) c in
          elim (Bool-cases env.marks_old) [
            | inl m ↦ rw m (
                subst (λ s. Rotated q developer env rows (A.put s (grace_row env k), ok r)) new_rows
                  (grown-Rotated q developer env rows k p there own free r
                    (ap (λ (x : CreateApiKeyResult). x.api_key) same)))
            | inr m ↦ rw m (
                inr (
                  refl,
                  subst (Extended q developer rows) new_rows
                      (grown-Extended q developer env rows k p there own free),
                ))
          ]

      go :
          (o : Option ApiKey)
          → A.find_first rows (has_id q.api_key_id) ≡ o
          → Rotated q developer env rows (rotate_found A q developer env o rows)
      go none e = inl refl
      go (some k) e = elim (Bool-cases (is_foreign developer k)) [
        | inl f ↦ rw f (inl refl)
        | inr f ↦ rw f (made k (create_api_key A (renewal A q k) env rows) e f refl)
      ]

  -- A rotation starts the grace period of an active key anew, even if the key was rotated before and
  -- its grace period had ended: until the new grace period ends, and the key expires, its text is
  -- accepted.
  pub rotate_revives :
      (q : RotateApiKeyRequest) (developer : Option String) (env later : Environment)
      (rows : A.Rows) (r : CreateApiKeyResult) (k : ApiKey) (plain : String)
      → (rotate_api_key A q developer env rows).1 ≡ ok r
      → A.find_first rows (has_id q.api_key_id) ≡ some k
      → starts_with plain "mux_" ≡ true
      → later.hash_api_key plain ≡ k.key_hash
      → k.status ≡ active
      → later.now ≤ env.now + grace_seconds env.rotation_grace_seconds * 1000
      → is_past later.now k.expires_at ≡ false
      → (validate_api_key A plain later (rotate_api_key A q developer env rows).0).1
        ≡ ok (context A (grace_row env k))
  rotate_revives q developer env later rows r k plain e there fits hash status soon timely =
      go (rotate_api_key A q developer env rows) e (rotate_outcome q developer env rows)
    where
      throw_ok : {c : Exception} → ◌≡◌ {A = Result CreateApiKeyResult} (throw c) (ok r) → ⊥
      throw_ok e = cc

      some_eq : {a b : ApiKey} → ◌≡◌ {A = Option ApiKey} (some a) (some b) → a ≡ b
      some_eq e = cc

      go :
          (x : A.Rows × Result CreateApiKeyResult)
          → x.1 ≡ ok r
          → Rotated q developer env rows x
          → (validate_api_key A plain later x.0).1 ≡ ok (context A (grace_row env k))
      go (rows', throw c) f x = absurd (throw_ok f)
      go (rows', ok s) f x =
          let at_k =
            subst (λ (v : ApiKey). A.find rows' v.key_hash ≡ some (grace_row env v))
              (some_eq (sym x.1 ∙ there)) x.8 in
          usable-validate A plain later rows' (grace_row env k)
            (fits, ap (A.find rows') hash ∙ at_k, status, ground arith, timely)
