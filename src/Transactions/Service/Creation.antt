-- ===== src/Transactions/Service/Creation.antt =====
-- What the creation of a transaction can do (transactions.service.ts, create).
use mux_backend.Prelude.{
  ℕ, String, ◌≡◌, refl, sym, ap, ◌∙◌, ◌≢◌, ◌⊎◌, inl, inr, true, false, none, some, ◌∷◌, arith,
  Bool-cases, Option-cases, str_eq, str_eq_iff,
}
use mux_backend.Prelude.Http.{
  Exception, not_found, insufficient_balance, internal_error, Result, ok, throw, Result-cases,
}
use mux_backend.Prelude.Table.{IndexedTable}
use mux_backend.Common.Memo.{validate_memo}
use mux_backend.Transactions.Model.{pending}
use mux_backend.Transactions.Service.{
  TransactionRow, key_of, CreateTransactionDto, Environment, truthy, receiver_exists, is_covered,
  new_row, State, Created, created_event, insert, taken_by, insert_checked, create,
}

-- What a new transaction has to satisfy.
pub record IsAcceptable (env : Environment) (dto : CreateTransactionDto) : Type 0 where
  pub memo : validate_memo dto.memo ≡ ok tt
  pub sender : env.wallet_exists dto.sender_wallet_id ≡ true
  pub receiver :
      (w : String) → dto.receiver_wallet_id ≡ some w → w ≢ "" → env.wallet_exists w ≡ true
  pub covered :
      (balance : String)
      → env.balance dto.sender_wallet_id dto.asset ≡ some balance
      → env.less balance dto.amount ≡ false
  pub covered_unknown :
      env.balance dto.sender_wallet_id dto.asset ≡ none → env.less "0" dto.amount ≡ false

receiver_exists-stored :
    (env : Environment) (dto : CreateTransactionDto) (w : String)
    → receiver_exists env dto ≡ true
    → dto.receiver_wallet_id ≡ some w
    → w ≢ ""
    → env.wallet_exists w ≡ true
unfolding receiver_exists
receiver_exists-stored env dto w h e n = elim (Bool-cases (str_eq w "")) [
  | inl empty ↦ absurd (n ((str_eq_iff w "").0 empty))
  | inr named ↦ named_exists named (rw e at h)
]
  where
    named_exists :
        str_eq w "" ≡ false
        → elim (truthy (some w)) [ none ↦ true | some v ↦ env.wallet_exists v ] ≡ true
        → env.wallet_exists w ≡ true
    named_exists f g = rw f at g

acceptable :
    (env : Environment) (dto : CreateTransactionDto)
    → validate_memo dto.memo ≡ ok tt
    → env.wallet_exists dto.sender_wallet_id ≡ true
    → receiver_exists env dto ≡ true
    → is_covered env dto ≡ true
    → IsAcceptable env dto
unfolding is_covered
acceptable env dto m a b c = record {
  memo = m;
  sender = a;
  receiver = λ w e n. receiver_exists-stored env dto w b e n;
  covered = λ balance e. ground arith;
  covered_unknown = λ e. ground arith;
}

module _ (T : IndexedTable String TransactionRow key_of) (same : Discrete String) where
  -- The three ways in which a creation ends.
  abbrev pub IsRefused : State T same → State T same × Result (Created T same) → Type 0
  IsRefused s r = (e : Exception) × (r ≡ (s, throw e))

  abbrev pub IsReplay :
      CreateTransactionDto → State T same → State T same × Result (Created T same) → Type 0
  IsReplay dto s r =
      (q : String) × (row : TransactionRow) × (truthy dto.idempotency_key ≡ some q)
      × (T.find_by s.rows q ≡ some row)
      × (r ≡ (s, ok (row, true)))

  -- The new row has the data of the request, and is pending.
  pub record IsNew (dto : CreateTransactionDto) (id : String) (now : ℕ) (row : TransactionRow)
      : Type 0 where
    pub row_id : row.id ≡ id
    pub status : row.status ≡ pending
    pub amount : row.amount ≡ dto.amount
    pub asset : row.asset ≡ dto.asset
    pub sender : row.sender_wallet_id ≡ dto.sender_wallet_id
    pub receiver : row.receiver_wallet_id ≡ dto.receiver_wallet_id
    pub memo : row.memo ≡ dto.memo
    pub key : row.idempotency_key ≡ dto.idempotency_key
    pub hash : row.stellar_hash ≡ none
    pub created : row.created_at ≡ now

  new_row-IsNew :
      (dto : CreateTransactionDto) (id : String) (now : ℕ) → IsNew dto id now (new_row dto id now)
  unfolding new_row
  new_row-IsNew dto id now = record {
    row_id = refl;
    status = refl;
    amount = refl;
    asset = refl;
    sender = refl;
    receiver = refl;
    memo = refl;
    key = refl;
    hash = refl;
    created = refl;
  }

  abbrev pub IsInsertion :
      Environment
      → CreateTransactionDto
      → String
      → ℕ
      → State T same
      → State T same × Result (Created T same)
      → Type 0
  IsInsertion env dto id now s r =
      IsAcceptable env dto
      × ((q : String) → dto.idempotency_key ≡ some q → T.find_by s.rows q ≡ none)
      × IsNew dto id now (new_row dto id now)
      × (r ≡ (
        record s {
          rows = T.put s.rows id (new_row dto id now);
          outbox = created_event (new_row dto id now) ∷ s.outbox;
        },
        ok (new_row dto id now, false),
      ))

  unkeyed :
      (dto : CreateTransactionDto) (s : State T same)
      → taken_by T same dto.idempotency_key s.rows ≡ none
      → (q : String) → dto.idempotency_key ≡ some q
      → T.find_by s.rows q ≡ none
  unkeyed dto s e q h = ap (λ o. taken_by T same o s.rows) (sym h) ∙ e

  insert_checked_cases :
      (env : Environment) (dto : CreateTransactionDto) (id : String) (now : ℕ) (s : State T same)
      → validate_memo dto.memo ≡ ok tt
      → IsRefused s (insert_checked T same env dto id now s)
        ⊎ IsInsertion env dto id now s (insert_checked T same env dto id now s)
  unfolding insert_checked
  insert_checked_cases env dto id now s m =
      elim (Bool-cases (env.wallet_exists dto.sender_wallet_id)) [
        | inr a ↦ inl (not_found, rw a)
        | inl a ↦ elim (Bool-cases (receiver_exists env dto)) [
          | inr b ↦ inl (not_found, rw (a, b))
          | inl b ↦ elim (Bool-cases (is_covered env dto)) [
            | inr c ↦ inl (insufficient_balance, rw (a, b, c))
            | inl c ↦ elim (Option-cases (taken_by T same dto.idempotency_key s.rows)) [
              | inr (old, taken) ↦ inl (internal_error, rw (a, b, c) (rw (taken, insert) refl))
              | inl free ↦ inr (
                acceptable env dto m a b c,
                unkeyed dto s free,
                new_row-IsNew dto id now,
                rw (a, b, c) (rw (free, insert) refl),
              )
            ]
          ]
        ]
      ]

  pub create_cases :
      (env : Environment) (dto : CreateTransactionDto) (id : String) (now : ℕ) (s : State T same)
      → IsRefused s (create T same env dto id now s)
        ⊎ IsReplay dto s (create T same env dto id now s)
        ⊎ IsInsertion env dto id now s (create T same env dto id now s)
  unfolding create
  create_cases env dto id now s = elim (Result-cases (validate_memo dto.memo)) [
    | inr (e, bad) ↦ inl (e, rw bad)
    | inl (tt, m) ↦ elim (Option-cases (truthy dto.idempotency_key)) [
      | inl absent ↦ checked (rw (m, absent) refl) (insert_checked_cases env dto id now s m)
      | inr (q, keyed) ↦ elim (Option-cases (T.find_by s.rows q)) [
        | inr (row, old) ↦ inr (inl (q, row, keyed, old, rw (m, keyed, old)))
        | inl new ↦ checked (rw (m, keyed, new) refl) (insert_checked_cases env dto id now s m)
      ]
    ]
  ]
    where
      checked :
          create T same env dto id now s ≡ insert_checked T same env dto id now s
          → IsRefused s (insert_checked T same env dto id now s)
            ⊎ IsInsertion env dto id now s (insert_checked T same env dto id now s)
          → IsRefused s (create T same env dto id now s)
            ⊎ IsReplay dto s (create T same env dto id now s)
            ⊎ IsInsertion env dto id now s (create T same env dto id now s)
      checked e (inl (x, h)) = inl (x, e ∙ h)
      checked e (inr (a, b, c, h)) = inr (inr (a, b, c, e ∙ h))
