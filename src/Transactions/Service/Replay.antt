-- ===== src/Transactions/Service/Replay.antt =====
-- An idempotency key creates at most one transaction (transactions.service.ts, create).
use mux_backend.Prelude.{
  ℕ, String, ◌≡◌, sym, ap, ◌∙◌, subst, ◌≢◌, inl, inr, true, false, none, some, List, [], ◌∷◌, arith,
  Bool-cases, Option-cases,
}
use mux_backend.Prelude.Http.{ok}
use mux_backend.Prelude.Table.{IndexedTable}
use mux_backend.Common.Memo.{validate_memo}
use mux_backend.Transactions.Model.{can_transition_transaction_status}
use mux_backend.Transactions.Service.{
  TransactionRow, key_of, CreateTransactionDto, UpdateTransactionStatusDto, Environment, truthy,
  new_row, updated_row, State, create, find_one, update_status,
}
use mux_backend.Transactions.Service.Creation.{create_cases}
use mux_backend.Transactions.Service.Requests.{
  Request, creates, reads, updates, step, run, IsFresh, AllFresh,
}

module _ (T : IndexedTable String TransactionRow key_of) (same : Discrete String) where
  -- The transaction `id` is stored, has the key q and is found by it, and no other has that key.
  pub record Holds (q id : String) (rows : T.Rows) : Type 0 where
    pub row : TransactionRow
    pub at : T.find rows id ≡ some row
    pub by : T.find_by rows q ≡ some row
    pub keyed : row.idempotency_key ≡ some q
    pub only :
        (j : String) (r : TransactionRow)
        → T.find rows j ≡ some r
        → r.idempotency_key ≡ some q
        → j ≡ id

  -- No stored transaction has the key q.
  abbrev pub IsUnused : String → T.Rows → Type 0
  IsUnused q rows =
      (j : String) (r : TransactionRow) → T.find rows j ≡ some r → r.idempotency_key ≢ some q

  put_self-Holds :
      (q id : String) (rows : T.Rows) (v : TransactionRow)
      → v.idempotency_key ≡ some q
      → ((j : String) (r : TransactionRow)
          → j ≢ id
          → T.find rows j ≡ some r
          → r.idempotency_key ≢ some q)
      → Holds q id (T.put rows id v)
  put_self-Holds q id rows v k other = record {
    row = v;
    at = T.find-put rows id v;
    by = T.find_by-put rows id v q k;
    keyed = k;
    only = λ j r f e. elim (same j id) [
      | yes p ↦ p
      | no p ↦ absurd (other j r p (sym (T.find-put_ne rows id j v p) ∙ f) e)
    ];
  }

  put_other-Holds :
      (q id j : String) (rows : T.Rows) (v : TransactionRow)
      → j ≢ id
      → v.idempotency_key ≢ some q
      → Holds q id rows
      → Holds q id (T.put rows j v)
  put_other-Holds q id j rows v p k h = record {
    row = h.row;
    at = T.find-put_ne rows j id v (λ e. p (sym e)) ∙ h.at;
    by = T.find_by-put_ne rows j v q k (λ old f e. p (h.only j old f e)) ∙ h.by;
    keyed = h.keyed;
    only = λ i r f e. elim (same i j) [
      | yes i_j ↦ absurd (k (stored i r i_j f e))
      | no i_j ↦ h.only i r (sym (T.find-put_ne rows j i v i_j) ∙ f) e
    ];
  }
    where
      stored :
          (i : String) (r : TransactionRow)
          → i ≡ j
          → T.find (T.put rows j v) i ≡ some r
          → r.idempotency_key ≡ some q
          → v.idempotency_key ≡ some q
      stored i r i_j f e = cc (T.find-put rows j v)

  find_one-rows :
      (s : State T same) (id : String) (now : ℕ) → (find_one T same id now s).0.rows ≡ s.rows
  unfolding find_one
  find_one-rows s id now = ground arith

  create-Holds :
      (q id : String) (s : State T same) (env : Environment) (dto : CreateTransactionDto)
      (new : String) (now : ℕ)
      → truthy (some q) ≡ some q
      → T.find s.rows new ≡ none
      → Holds q id s.rows
      → Holds q id (create T same env dto new now s).0.rows
  unfolding new_row
  create-Holds q id s env dto new now full fresh h = elim (create_cases T same env dto new now s) [
    | inl (e, refused) ↦ rw refused h
    | inr (inl (p, row, _, _, replay)) ↦ rw replay h
    | inr (inr (_, unused, _, grown)) ↦
        rw grown (
          put_other-Holds q id new s.rows (new_row dto new now) (λ e. cc (h.at)) (unkeyed unused) h)
  ]
    where
      unkeyed :
          ((p : String) → dto.idempotency_key ≡ some p → T.find_by s.rows p ≡ none)
          → (new_row dto new now).idempotency_key ≢ some q
      unkeyed unused e = let gone = unused q e in let found = h.by in cc

  updated_row-key :
      (r : TransactionRow) (dto : UpdateTransactionStatusDto) (now : ℕ)
      → (updated_row r dto now).idempotency_key ≡ r.idempotency_key
  unfolding updated_row
  updated_row-key r dto now = ground arith

  rewritten-Holds :
      (q id j : String) (rows : T.Rows) (r v : TransactionRow)
      → T.find rows j ≡ some r
      → v.idempotency_key ≡ r.idempotency_key
      → Holds q id rows
      → Holds q id (T.put rows j v)
  rewritten-Holds q id j rows r v f k h = elim (same j id) [
    | no p ↦ put_other-Holds q id j rows v p (λ e. p (h.only j r f (sym k ∙ e))) h
    | yes p ↦
        subst (λ i. Holds q id (T.put rows i v)) (sym p)
          (put_self-Holds q id rows v (k ∙ keyed p) (λ i x i_id g e. i_id (h.only i x g e)))
  ]
    where
      keyed : j ≡ id → r.idempotency_key ≡ some q
      keyed p = let there = h.at in let its = h.keyed in cc

  update_status-Holds :
      (q id : String) (s : State T same) (j : String) (dto : UpdateTransactionStatusDto) (now : ℕ)
      → Holds q id s.rows
      → Holds q id (update_status T same j dto now s).0.rows
  unfolding update_status
  update_status-Holds q id s j dto now h = elim (Option-cases (T.find s.rows j)) [
    | inl gone ↦ rw (gone, update_status) h
    | inr (r, stored) ↦ elim (Bool-cases (can_transition_transaction_status r.status dto.status)) [
      | inl allowed ↦
          rw (stored, allowed, update_status)
            (rewritten-Holds q id j s.rows r (updated_row r dto now) stored
              (updated_row-key r dto now) h)
      | inr refused ↦ rw (stored, refused, update_status) h
    ]
  ]

  step-Holds :
      (q id : String) (s : State T same) (request : Request)
      → truthy (some q) ≡ some q
      → IsFresh T same s request
      → Holds q id s.rows
      → Holds q id (step T same s request).rows
  unfolding step
  step-Holds q id s (creates env dto new now) full fresh h =
      create-Holds q id s env dto new now full fresh h
  step-Holds q id s (reads j now) full fresh h = rw (find_one-rows s j now) h
  step-Holds q id s (updates j dto now) full fresh h = update_status-Holds q id s j dto now h

  pub run-Holds :
      (q id : String) (s : State T same) (requests : List Request)
      → truthy (some q) ≡ some q
      → AllFresh T same s requests
      → Holds q id s.rows
      → Holds q id (run T same s requests).rows
  unfolding run AllFresh
  run-Holds q id s [] full fresh h = h
  run-Holds q id s (r ∷ rs) full fresh h =
      run-Holds q id (step T same s r) rs full fresh.1 (step-Holds q id s r full fresh.0 h)

  first-Holds :
      (s : State T same) (env : Environment) (dto : CreateTransactionDto) (id q : String) (now : ℕ)
      → dto.idempotency_key ≡ some q
      → IsUnused q s.rows
      → (create T same env dto id now s).1 ≡ ok (new_row dto id now, false)
      → Holds q id (create T same env dto id now s).0.rows
  unfolding new_row
  first-Holds s env dto id q now k unused done = elim (create_cases T same env dto id now s) [
    | inl (e, refused) ↦ cc
    | inr (inl (p, row, _, _, replay)) ↦ cc
    | inr (inr (_, _, _, grown)) ↦
        rw grown (put_self-Holds q id s.rows (new_row dto id now) k (λ j r _ f. unused j r f))
  ]

  create_replay :
      (s : State T same) (env : Environment) (dto : CreateTransactionDto) (id q : String) (now : ℕ)
      (row : TransactionRow)
      → truthy dto.idempotency_key ≡ some q
      → validate_memo dto.memo ≡ ok tt
      → T.find_by s.rows q ≡ some row
      → create T same env dto id now s ≡ (s, ok (row, true))
  unfolding create
  create_replay s env dto id q now row t m b = rw (m, t, b)

  -- Once a request has inserted a transaction under an idempotency key that is not empty and was
  -- not in use, then after any further requests a creation with that key and a valid memo inserts
  -- nothing: it returns that same transaction, as it then is, and leaves the state as it is.
  pub create_once :
      (s : State T same) (env : Environment) (dto : CreateTransactionDto) (id q : String) (now : ℕ)
      (requests : List Request) (env' : Environment) (dto' : CreateTransactionDto) (id' : String)
      (now' : ℕ)
      → truthy (some q) ≡ some q
      → dto.idempotency_key ≡ some q
      → dto'.idempotency_key ≡ some q
      → validate_memo dto'.memo ≡ ok tt
      → IsUnused q s.rows
      → (create T same env dto id now s).1 ≡ ok (new_row dto id now, false)
      → AllFresh T same (create T same env dto id now s).0 requests
      → let s' = run T same (create T same env dto id now s).0 requests in
        (row : TransactionRow) × (T.find s'.rows id ≡ some row)
        × (create T same env' dto' id' now' s' ≡ (s', ok (row, true)))
  create_once s env dto id q now requests env' dto' id' now' full k k' m unused done fresh =
      let h = run-Holds q id _ requests full fresh (first-Holds s env dto id q now k unused done) in
      (h.row, h.at, create_replay _ env' dto' id' q now' h.row (ap truthy k' ∙ full) m h.by)
