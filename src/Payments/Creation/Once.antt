-- ===== src/Payments/Creation/Once.antt =====
-- A payment is created once under its idempotency key (payments.service.ts, create).
use mux_backend.Prelude.{
  ℕ, String, ◌≡◌, refl, sym, ap, ◌∙◌, ◌≢◌, ◌⊎◌, inl, inr, Bool, true, false, not, ◌||◌, Option,
  none, some, arith, Option-cases, str_eq, str_eq_iff,
}
use mux_backend.Prelude.Http.{Exception, Result, ok, throw}
use native.Mathlib.Decide.{ℕ_discrete}
use mux_backend.Prelude.Rows.{RowTable}
use mux_backend.Wallets.Creation.{truthy}
use mux_backend.Payments.Service.{pending, confirmed, failed}
use mux_backend.Payments.Creation.{
  CreatePaymentDto, StoredPayment, Submission, Environment, payment_id, has_key,
  validate_for_creation, new_payment, submitted, is_configured, State, keyed, orchestrate,
  insert_at, validated, create_or_replay, create,
}

-- The row that a creation leaves.
abbrev pub settled : Option (Result Submission) → StoredPayment → StoredPayment
settled none p = p
settled (some (throw e)) p = p
settled (some (ok t)) p = submitted t p

module _ (P : RowTable ℕ StoredPayment payment_id) where
  some_eq : {a b : StoredPayment} → ◌≡◌ {A = Option StoredPayment} (some a) (some b) → a ≡ b
  some_eq e = cc

  clash : {b : Bool} → b ≡ true → b ≡ false → ⊥
  clash e f = cc

  throw_ok :
      {a : StoredPayment} {c : Exception} → ◌≡◌ {A = Result StoredPayment} (throw c) (ok a) → ⊥
  throw_ok e = cc

  -- The only row with a key that no other row has is the one that is found by it.
  found_by_key :
      (rows rows' : P.Rows) (p : StoredPayment) (k : String)
      → P.find rows' p.id ≡ some p
      → has_key k p ≡ true
      → ((j : ℕ) → j ≢ p.id → P.find rows' j ≡ P.find rows j)
      → P.find_first rows (has_key k) ≡ none
      → P.find_first rows' (has_key k) ≡ some p
  found_by_key rows rows' p k there named others new =
      elim (Option-cases (P.find_first rows' (has_key k))) [
        | inl gone ↦ absurd (clash named (P.find_first_none rows' (has_key k) p.id p gone there))
        | inr (v, found) ↦
            let (good, at_v) = P.find_first_some rows' (has_key k) v found in
            elim (ℕ_discrete v.id p.id) [
              | yes i ↦ found ∙ ap some (some_eq (sym at_v ∙ ap (P.find rows') i ∙ there))
              | no i ↦ absurd (
                  clash good
                    (P.find_first_none rows (has_key k) v.id v new (sym (others v.id i) ∙ at_v)))
            ]
      ]

  orchestrate-found :
      (q : CreatePaymentDto) (env : Environment) (o : Option (Result Submission)) (s : State P)
      (k : String)
      → has_key k (new_payment q env) ≡ true
      → P.find_first s.rows (has_key k) ≡ none
      → P.find_first
          (orchestrate P
            (new_payment q env)
            o
            (record s { rows = P.put s.rows (new_payment q env) })).0.rows
          (has_key k)
        ≡ some (settled o (new_payment q env))
  orchestrate-found q env none s k named new =
      let p = new_payment q env in
      found_by_key s.rows (P.put s.rows p) p k (P.find-put s.rows p) named
        (λ j n. P.find-put_ne s.rows p j n) new
  orchestrate-found q env (some (throw e)) s k named new =
      let p = new_payment q env in
      found_by_key s.rows (P.put s.rows p) p k (P.find-put s.rows p) named
        (λ j n. P.find-put_ne s.rows p j n) new
  orchestrate-found q env (some (ok t)) s k named new =
      let p = new_payment q env in
      let rows = P.put s.rows p in
      found_by_key s.rows (P.put rows (submitted t p)) (submitted t p) k
        (P.find-put rows (submitted t p)) named
        (λ j n. P.find-put_ne rows (submitted t p) j n ∙ P.find-put_ne s.rows p j n) new

  truthy-some : (k : String) → str_eq k "" ≡ false → truthy (some k) ≡ some k
  truthy-some k e = rw e refl

  replays :
      (r : CreatePaymentDto) (env : Environment) (s : State P) (k : String) (p : StoredPayment)
      → r.idempotency_key ≡ some k
      → str_eq k "" ≡ false
      → is_configured env ≡ true
      → P.find_first s.rows (has_key k) ≡ some p
      → create P r env s ≡ (s, ok p)
  unfolding create
  replays r env s k p key named ready there =
      let by_key : keyed P (truthy r.idempotency_key) s.rows ≡ some p =
        ap (λ o. keyed P (truthy o) s.rows) key
        ∙ ap (λ o. keyed P o s.rows) (truthy-some k named)
        ∙ there in
      begun ready ∙ ap (λ o. create_or_replay P r env o s) by_key
    where
      begun :
          is_configured env ≡ true
          → create P r env s
            ≡ create_or_replay P r env (keyed P (truthy r.idempotency_key) s.rows) s
      begun e = rw e refl

  first_create :
      (q : CreatePaymentDto) (env : Environment) (s : State P) (k : String)
      → q.idempotency_key ≡ some k
      → str_eq k "" ≡ false
      → is_configured env ≡ true
      → P.find_first s.rows (has_key k) ≡ none
      → P.find s.rows env.new_id ≡ none
      → validate_for_creation q env ≡ ok tt
      → create P q env s
        ≡ orchestrate P
            (new_payment q env)
            env.orchestration
            (record s { rows = P.put s.rows (new_payment q env) })
  unfolding create
  first_create q env s k key named ready new free valid =
      begun ready
      ∙ ap (λ o. create_or_replay P q env o s)
          (ap (λ o. keyed P (truthy o) s.rows) key
            ∙ ap (λ o. keyed P o s.rows) (truthy-some k named)
            ∙ new)
      ∙ ap (λ v. validated P q env v s) valid
      ∙ ap (λ o. insert_at P q env o (P.find s.rows env.new_id) s)
          (ap (λ o. keyed P o s.rows) key ∙ new)
      ∙ ap (λ o. insert_at P q env none o s) free
    where
      begun :
          is_configured env ≡ true
          → create P q env s
            ≡ create_or_replay P q env (keyed P (truthy q.idempotency_key) s.rows) s
      begun e = rw e refl

  create-settled :
      (q r : CreatePaymentDto) (env env' : Environment) (s : State P) (k : String)
      → q.idempotency_key ≡ some k
      → r.idempotency_key ≡ some k
      → str_eq k "" ≡ false
      → is_configured env ≡ true
      → is_configured env' ≡ true
      → P.find_first s.rows (has_key k) ≡ none
      → P.find s.rows env.new_id ≡ none
      → validate_for_creation q env ≡ ok tt
      → let s' = (create P q env s).0 in
        create P r env' s' ≡ (s', ok (settled env.orchestration (new_payment q env)))
  create-settled q r env env' s k key key' named ready ready' new free valid =
      let first = first_create q env s k key named ready new free valid in
      replays r env' (create P q env s).0 k (settled env.orchestration (new_payment q env)) key'
        named ready'
        (ap (λ (x : State P × Result StoredPayment). P.find_first x.0.rows (has_key k)) first
          ∙ orchestrate-found q env env.orchestration s k (keyed_by key) new)
    where
      keyed_by : q.idempotency_key ≡ some k → has_key k (new_payment q env) ≡ true
      keyed_by e = let self = (str_eq_iff k k).1 refl in rw e self

  -- The payment that a first request leaves, by what became of its transaction.
  pub record IsLeft (q : CreatePaymentDto) (k : String) (orchestration : Option (Result Submission))
      (p : StoredPayment) : Type 0 where
    pub key : p.idempotency_key ≡ some k
    pub amount : p.amount ≡ q.amount
    pub sender : p.sender_wallet_id ≡ q.wallet_id
    pub receiver : p.receiver_wallet_id ≡ q.receiver_wallet_id
    pub submitted_ok :
        (t : Submission)
        → orchestration ≡ some (ok t)
        → t.is_failed ≡ false
        → (p.status ≡ confirmed) × (p.transaction_id ≡ some t.transaction_id)
    pub submitted_failed :
        (t : Submission)
        → orchestration ≡ some (ok t)
        → t.is_failed ≡ true
        → (p.status ≡ failed) × (p.transaction_id ≡ some t.transaction_id)
    pub abandoned :
        (e : Exception)
        → orchestration ≡ some (throw e)
        → (p.status ≡ pending) × (p.transaction_id ≡ none)
    pub unsubmitted : orchestration ≡ none → (p.status ≡ pending) × (p.transaction_id ≡ none)

  settled-IsLeft :
      (q : CreatePaymentDto) (env : Environment) (k : String) (o : Option (Result Submission))
      → q.idempotency_key ≡ some k
      → IsLeft q k o (settled o (new_payment q env))
  settled-IsLeft q env k none key = record {
    key = key;
    amount = refl;
    sender = refl;
    receiver = refl;
    submitted_ok = λ t h g. absurd (cc h);
    submitted_failed = λ t h g. absurd (cc h);
    abandoned = λ e h. absurd (cc h);
    unsubmitted = λ h. (refl, refl);
  }
  settled-IsLeft q env k (some (throw x)) key = record {
    key = key;
    amount = refl;
    sender = refl;
    receiver = refl;
    submitted_ok = λ t h g. absurd (cc h);
    submitted_failed = λ t h g. absurd (cc h);
    abandoned = λ e h. (refl, refl);
    unsubmitted = λ h. absurd (cc h);
  }
  settled-IsLeft q env k (some (ok x)) key = record {
    key = key;
    amount = refl;
    sender = refl;
    receiver = refl;
    submitted_ok = λ t h g. ground arith;
    submitted_failed = λ t h g. ground arith;
    abandoned = λ e h. absurd (cc h);
    unsubmitted = λ h. absurd (cc h);
  }

  ready_iff :
      (env : Environment)
      → (env.is_production ≡ false) ⊎ (env.orchestration ≢ none)
      → is_configured env ≡ true
  ready_iff env (inl h) = rw h refl
  ready_iff env (inr h) = elim (Option-cases env.orchestration) [
    | inl gone ↦ absurd (h gone)
    | inr (o, there) ↦ go env.is_production o there
  ]
    where
      go :
          (b : Bool) (o : Result Submission)
          → env.orchestration ≡ some o
          → (not b || elim env.orchestration [ none ↦ false | some r ↦ true ]) ≡ true
      go true o e = rw e refl
      go false o e = refl

  -- A valid payment is created once under its idempotency key. Let both requests be served where the
  -- services of payments are configured, or outside production, and carry the same key, which is not
  -- empty and new to the first one. Then the second request, whatever else it asks for, changes
  -- nothing, announces nothing and returns the row that the first one stored. That row is confirmed
  -- or failed, as the transaction that the first request submitted; if the submission threw, or the
  -- services are not there, it is pending without a transaction, which the second request returns as
  -- a success and does not submit again.
  pub create-replayed :
      (q r : CreatePaymentDto) (env env' : Environment) (s : State P) (k : String)
      → q.idempotency_key ≡ some k
      → r.idempotency_key ≡ some k
      → str_eq k "" ≡ false
      → (env.is_production ≡ false) ⊎ (env.orchestration ≢ none)
      → (env'.is_production ≡ false) ⊎ (env'.orchestration ≢ none)
      → P.find_first s.rows (has_key k) ≡ none
      → P.find s.rows env.new_id ≡ none
      → validate_for_creation q env ≡ ok tt
      → let s' = (create P q env s).0 in
        (p : StoredPayment) × (create P r env' s' ≡ (s', ok p)) × IsLeft q k env.orchestration p
  create-replayed q r env env' s k key key' named ready ready' new free valid = (
    settled env.orchestration (new_payment q env),
    create-settled q r env env' s k key key' named (ready_iff env ready) (ready_iff env' ready') new
        free valid,
    settled-IsLeft q env k env.orchestration key,
  )
