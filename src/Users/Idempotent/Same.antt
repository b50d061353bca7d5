-- ===== src/Users/Idempotent/Same.antt =====
-- An authId names one user (idempotent-user.service.ts).
use mux_backend.Prelude.{
  ℕ, String, ◌≡◌, refl, sym, ap, ◌∙◌, subst, inl, inr, false, Option, none, some, List, [], ◌∷◌,
  Bool-cases, Option-cases,
}
use mux_backend.Prelude.Http.{Exception, Result, ok, throw}
use mux_backend.Prelude.Rows.{RowTable, none-some}
use mux_backend.Users.Idempotent.{
  User, FindOrCreateUserRequest, FindOrCreateUserResult, UserUpdates, Environment, auth_key, has_id,
  is_active, new_user, logged_in, updated, store_at, store_others, log_in, create_or_retry,
  create_after, found_or_create, find_or_create_user, update_found, update_user,
}

-- The calls of the service that write.
pub data Request : Type 0 where
  logs_in : FindOrCreateUserRequest → Environment → Request
  changes : String → UserUpdates → ℕ → Request

module _ (U : RowTable String User auth_key) where
  unfoldable pub step : U.Rows → Request → U.Rows
  step rows (logs_in q env) = (find_or_create_user U q env rows).0
  step rows (changes id p now) = (update_user U id p now rows).0

  unfoldable pub run : U.Rows → List Request → U.Rows
  run rows [] = rows
  run rows (q ∷ qs) = run (step rows q) qs

  -- The user of the authId has the identifier.
  abbrev pub IsNamed : String → String → U.Rows → Type 0
  IsNamed key id rows = (u : User) × (U.find rows key ≡ some u) × (u.id ≡ id)

  some_eq : {a b : User} → ◌≡◌ {A = Option User} (some a) (some b) → a ≡ b
  some_eq e = cc

  result_eq :
      {a b : FindOrCreateUserResult} → ◌≡◌ {A = Result FindOrCreateUserResult} (ok a) (ok b) → a ≡ b
  result_eq e = cc

  throw_ok :
      {a : FindOrCreateUserResult} {c : Exception}
      → ◌≡◌ {A = Result FindOrCreateUserResult} (throw c) (ok a)
      → ⊥
  throw_ok e = cc

  put-IsNamed :
      (rows : U.Rows) (u : User) (key id : String)
      → Discrete String
      → (u.auth_id ≡ key → u.id ≡ id)
      → IsNamed key id rows
      → IsNamed key id (U.put rows u)
  put-IsNamed rows u key id dec h (v, there, same) = elim (dec key u.auth_id) [
    | yes p ↦
        (u, subst (λ k. U.find (U.put rows u) k ≡ some u) (sym p) (U.find-put rows u), h (sym p))
    | no p ↦ (v, U.find-put_ne rows u key p ∙ there, same)
  ]

  stored-id :
      (rows : U.Rows) (u : User) (key id : String)
      → IsNamed key id rows
      → U.find rows u.auth_id ≡ some u
      → u.auth_id ≡ key
      → u.id ≡ id
  stored-id rows u key id (v, there, same) e p =
      ap (λ (x : User). x.id) (some_eq (sym (subst (λ k. U.find rows k ≡ some u) p e) ∙ there))
      ∙ same

  store_others-IsNamed :
      (us : List User) (rows : U.Rows) (key id : String)
      → Discrete String
      → IsNamed key id rows
      → IsNamed key id (store_others U us rows)
  unfolding store_others
  store_others-IsNamed [] rows key id dec n = n
  store_others-IsNamed (u ∷ us) rows key id dec n =
      store_others-IsNamed us (store_at U (U.find rows u.auth_id) u rows) key id dec
        (elim (Option-cases (U.find rows u.auth_id)) [
          | inr (v, taken) ↦ rw (taken, store_at) n
          | inl free ↦
              rw (free, store_at)
                (put-IsNamed rows u key id dec
                  (λ p. absurd (none-some (sym free ∙ ap (U.find rows) p ∙ n.1))) n)
        ])

  log_in-IsNamed :
      (q : FindOrCreateUserRequest) (now : ℕ) (u : User) (rows : U.Rows) (key id : String)
      → Discrete String
      → U.find rows u.auth_id ≡ some u
      → IsNamed key id rows
      → IsNamed key id (log_in U q now u rows).0
  log_in-IsNamed q now u rows key id dec e n =
      put-IsNamed rows (logged_in q now u) key id dec (stored-id rows u key id n e) n

  at_own_key :
      (rows : U.Rows) (k : String) (u : User)
      → U.find rows k ≡ some u
      → U.find rows u.auth_id ≡ some u
  at_own_key rows k u e = subst (λ j. U.find rows j ≡ some u) (sym (U.key-find rows k u e)) e

  create-IsNamed :
      (q : FindOrCreateUserRequest) (env : Environment) (rows : U.Rows) (key id : String)
      → Discrete String
      → IsNamed key id rows
      → IsNamed key id (create_after U q env rows).0
  create-IsNamed q env rows key id dec n = go (U.find rows q.auth_id) refl
    where
      go :
          (o : Option User)
          → U.find rows q.auth_id ≡ o
          → IsNamed key id (create_or_retry U q env o rows).0
      go none e =
          put-IsNamed rows (new_user q env) key id dec
            (λ p. absurd (none-some (sym e ∙ ap (U.find rows) p ∙ n.1))) n
      go (some u) e = log_in-IsNamed q env.now u rows key id dec (at_own_key rows q.auth_id u e) n

  find_or_create-IsNamed :
      (q : FindOrCreateUserRequest) (env : Environment) (rows : U.Rows) (key id : String)
      → Discrete String
      → IsNamed key id rows
      → IsNamed key id (find_or_create_user U q env rows).0
  unfolding find_or_create_user
  find_or_create-IsNamed q env rows key id dec n = go (U.find rows q.auth_id) refl
    where
      go :
          (o : Option User)
          → U.find rows q.auth_id ≡ o
          → IsNamed key id (found_or_create U q env o rows).0
      go none e =
          create-IsNamed q env (store_others U env.meanwhile rows) key id dec
            (store_others-IsNamed env.meanwhile rows key id dec n)
      go (some u) e = elim (Bool-cases (is_active u.status)) [
        | inr off ↦ rw off n
        | inl on ↦
            rw on (log_in-IsNamed q env.now u rows key id dec (at_own_key rows q.auth_id u e) n)
      ]

  update-IsNamed :
      (k : String) (p : UserUpdates) (now : ℕ) (rows : U.Rows) (key id : String)
      → Discrete String
      → IsNamed key id rows
      → IsNamed key id (update_user U k p now rows).0
  unfolding update_user
  update-IsNamed k p now rows key id dec n = go (U.find_first rows (has_id k)) refl
    where
      go :
          (o : Option User)
          → U.find_first rows (has_id k) ≡ o
          → IsNamed key id (update_found U p now o rows).0
      go none e = n
      go (some u) e =
          put-IsNamed rows (updated p now u) key id dec
            (stored-id rows u key id n (U.find_first_some rows (has_id k) u e).1) n

  run-IsNamed :
      (rows : U.Rows) (qs : List Request) (key id : String)
      → Discrete String
      → IsNamed key id rows
      → IsNamed key id (run rows qs)
  unfolding run step
  run-IsNamed rows [] key id dec n = n
  run-IsNamed rows (logs_in q env ∷ qs) key id dec n =
      run-IsNamed (find_or_create_user U q env rows).0 qs key id dec
        (find_or_create-IsNamed q env rows key id dec n)
  run-IsNamed rows (changes k p now ∷ qs) key id dec n =
      run-IsNamed (update_user U k p now rows).0 qs key id dec
        (update-IsNamed k p now rows key id dec n)

  log_in-returned :
      (q : FindOrCreateUserRequest) (now : ℕ) (u : User) (rows : U.Rows)
      (r : FindOrCreateUserResult)
      → u.auth_id ≡ q.auth_id
      → (log_in U q now u rows).1 ≡ ok r
      → IsNamed q.auth_id r.user.id (log_in U q now u rows).0
  log_in-returned q now u rows r k e =
      let v = logged_in q now u in
      (
        v,
        subst (λ j. U.find (U.put rows v) j ≡ some v) k (U.find-put rows v),
        ap (λ (x : FindOrCreateUserResult). x.user.id) (result_eq e),
      )

  -- The user that is returned is stored under the authId.
  find_or_create-returned :
      (q : FindOrCreateUserRequest) (env : Environment) (rows : U.Rows) (r : FindOrCreateUserResult)
      → (find_or_create_user U q env rows).1 ≡ ok r
      → IsNamed q.auth_id r.user.id (find_or_create_user U q env rows).0
  unfolding find_or_create_user
  find_or_create-returned q env rows r = go (U.find rows q.auth_id) refl
    where
      created :
          (rows : U.Rows) (o : Option User)
          → U.find rows q.auth_id ≡ o
          → (create_or_retry U q env o rows).1 ≡ ok r
          → IsNamed q.auth_id r.user.id (create_or_retry U q env o rows).0
      created rows none f e = (
        new_user q env,
        U.find-put rows (new_user q env),
        ap (λ (x : FindOrCreateUserResult). x.user.id) (result_eq e),
      )
      created rows (some u) f e =
          log_in-returned q env.now u rows r (U.key-find rows q.auth_id u f) e

      go :
          (o : Option User)
          → U.find rows q.auth_id ≡ o
          → (found_or_create U q env o rows).1 ≡ ok r
          → IsNamed q.auth_id r.user.id (found_or_create U q env o rows).0
      go none f e =
          let rows' = store_others U env.meanwhile rows in
          created rows' (U.find rows' q.auth_id) refl e
      go (some u) f e = elim (Bool-cases (is_active u.status)) [
        | inr off ↦ absurd (throw_ok (rw off at e))
        | inl on ↦
            rw on (log_in-returned q env.now u rows r (U.key-find rows q.auth_id u f) (rw on at e))
      ]

  found-not_new :
      (q : FindOrCreateUserRequest) (env : Environment) (rows : U.Rows) (r : FindOrCreateUserResult)
      (id : String)
      → IsNamed q.auth_id id rows
      → (find_or_create_user U q env rows).1 ≡ ok r
      → (r.user.id ≡ id) × (r.is_new_user ≡ false)
  unfolding find_or_create_user
  found-not_new q env rows r id (u, there, same) e = elim (Bool-cases (is_active u.status)) [
    | inr off ↦ absurd (throw_ok (rw (there, found_or_create, off) at e))
    | inl on ↦
        let r_eq = result_eq (rw (there, found_or_create, on) at e) in
        (
          sym (ap (λ (x : FindOrCreateUserResult). x.user.id) r_eq) ∙ same,
          sym (ap (λ (x : FindOrCreateUserResult). x.is_new_user) r_eq),
        )
  ]

  -- Every call with one authId that returns, returns the same user, and only the first may report a
  -- new one: after a call that returns, whatever users log in and are changed, and whatever users
  -- other requests store in the middle of a call, a later call with that authId that returns has the
  -- identifier of the first and does not report a new user.
  pub find_or_create-same :
      (q q' : FindOrCreateUserRequest) (env env' : Environment) (rows : U.Rows)
      (r r' : FindOrCreateUserResult) (qs : List Request)
      → Discrete String
      → (find_or_create_user U q env rows).1 ≡ ok r
      → q'.auth_id ≡ q.auth_id
      → (find_or_create_user U q' env' (run (find_or_create_user U q env rows).0 qs)).1 ≡ ok r'
      → (r'.user.id ≡ r.user.id) × (r'.is_new_user ≡ false)
  find_or_create-same q q' env env' rows r r' qs dec e k e' =
      let rows' = (find_or_create_user U q env rows).0 in
      found-not_new q' env' (run rows' qs) r' r.user.id
        (subst (λ j. IsNamed j r.user.id (run rows' qs)) (sym k)
          (run-IsNamed rows' qs q.auth_id r.user.id dec (find_or_create-returned q env rows r e)))
        e'
