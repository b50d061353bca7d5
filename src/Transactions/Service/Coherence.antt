-- ===== src/Transactions/Service/Coherence.antt =====
-- The cache never disagrees with the database, so a cached read returns what an uncached one would
-- (transactions.service.ts, findOne).
use mux_backend.Prelude.{
  ℕ, String, ◌≡◌, ◌∙◌, inl, inr, Option, none, some, arith, Bool-cases, Option-cases,
}
use mux_backend.Prelude.Http.{not_found, Result, ok, throw}
use mux_backend.Prelude.Table.{IndexedTable}
use mux_backend.Common.Cache.{CacheEntry, CacheMap, get, set, delete, map_get}
use mux_backend.Common.Cache.Laws.{
  map_get_of_get, map_get_of_set, map_get_of_delete, map_get-delete_self,
}
use mux_backend.Transactions.Service.Creation.{create_cases}
use mux_backend.Transactions.Model.{can_transition_transaction_status}
use mux_backend.Transactions.Service.{
  TransactionRow, key_of, CreateTransactionDto, UpdateTransactionStatusDto, Environment,
  transaction_cache_ttl, updated_row, new_row, State, create, find_one, update_status,
}

-- `findOne` without its cache.
abbrev pub read : Option TransactionRow → Result TransactionRow
read none = throw not_found
read (some r) = ok r

module _ (T : IndexedTable String TransactionRow key_of) (same : Discrete String) where
  abbrev pub Agrees : T.Rows → CacheMap String TransactionRow → Type 0
  Agrees rows cache =
      (id : String) (e : CacheEntry TransactionRow)
      → map_get same id cache ≡ some e
      → T.find rows id ≡ some e.value

  -- Every cached transaction is the stored one.
  abbrev pub IsCoherent : State T same → Type 0
  IsCoherent s = Agrees s.rows s.cache

  Agrees-get :
      (rows : T.Rows) (cache : CacheMap String TransactionRow) (k : String) (now : ℕ)
      → Agrees rows cache
      → Agrees rows (get same k now cache).1
  Agrees-get rows cache k now h id e p = h id e (map_get_of_get same id k now cache e p)

  Agrees-delete :
      (rows : T.Rows) (cache : CacheMap String TransactionRow) (k : String)
      → Agrees rows cache
      → Agrees rows (delete same k cache).1
  unfolding delete
  Agrees-delete rows cache k h id e p = h id e (ground (arith, map_get_of_delete same id k cache e))

  Agrees-set :
      (rows : T.Rows) (cache : CacheMap String TransactionRow) (k : String) (ttl now : ℕ)
      (r : TransactionRow)
      → T.find rows k ≡ some r
      → Agrees rows cache
      → Agrees rows (set same k r ttl now cache)
  Agrees-set rows cache k ttl now r f h id e p =
      elim (map_get_of_set same id k r ttl now cache e p) [
        | inl (q, v) ↦ rw (q, v) f
        | inr old ↦ h id e old
      ]

  Agrees-put :
      (rows : T.Rows) (cache : CacheMap String TransactionRow) (k : String) (r : TransactionRow)
      → map_get same k cache ≡ none
      → Agrees rows cache
      → Agrees (T.put rows k r) cache
  Agrees-put rows cache k r gone h id e p = elim (same id k) [
    | yes q ↦ absurd (missing (rw q at p))
    | no q ↦ T.find-put_ne rows k id r q ∙ h id e p
  ]
    where
      missing : map_get same k cache ≡ some e → ⊥
      missing m = ground arith

  -- A key that is not stored is not cached.
  Agrees-none :
      (rows : T.Rows) (cache : CacheMap String TransactionRow) (k : String)
      → Agrees rows cache
      → T.find rows k ≡ none
      → map_get same k cache ≡ none
  Agrees-none rows cache k h f = elim (Option-cases (map_get same k cache)) [
    | inl gone ↦ gone
    | inr (e, there) ↦ absurd (clash (h k e there))
  ]
    where
      clash : {v : TransactionRow} → T.find rows k ≡ some v → ⊥
      clash q = ground arith

  -- In a coherent state a cached read returns what the database holds.
  find_one-read :
      (s : State T same) (id : String) (now : ℕ)
      → IsCoherent s
      → (find_one T same id now s).1 ≡ read (T.find s.rows id)
  unfolding find_one get
  find_one-read s id now h = elim (Option-cases (map_get same id s.cache)) [
    | inl miss ↦ ground arith
    | inr (e, hit) ↦ let stored = h id e hit in ground arith
  ]

  pub find_one-IsCoherent :
      (s : State T same) (id : String) (now : ℕ)
      → IsCoherent s
      → IsCoherent (find_one T same id now s).0
  unfolding find_one
  find_one-IsCoherent s id now h =
      let kept = Agrees-get s.rows s.cache id now h in
      elim (Option-cases (get same id now s.cache).0) [
        | inr (r, hit) ↦ rw (hit, find_one) kept
        | inl miss ↦ elim (Option-cases (T.find s.rows id)) [
          | inl gone ↦ rw (miss, gone, find_one) kept
          | inr (r, stored) ↦
              rw (miss, stored, find_one)
                (Agrees-set s.rows _ id transaction_cache_ttl now r stored kept)
        ]
      ]

  pub update_status-IsCoherent :
      (s : State T same) (id : String) (dto : UpdateTransactionStatusDto) (now : ℕ)
      → IsCoherent s
      → IsCoherent (update_status T same id dto now s).0
  unfolding update_status
  update_status-IsCoherent s id dto now h = elim (Option-cases (T.find s.rows id)) [
    | inl gone ↦ rw (gone, update_status) h
    | inr (r, stored) ↦ elim (Bool-cases (can_transition_transaction_status r.status dto.status)) [
      | inl allowed ↦
          rw (stored, allowed, update_status)
            (Agrees-put s.rows _ id (updated_row r dto now) (map_get-delete_self same id s.cache)
              (Agrees-delete s.rows s.cache id h))
      | inr refused ↦ rw (stored, refused, update_status) h
    ]
  ]

  pub create-IsCoherent :
      (s : State T same) (env : Environment) (dto : CreateTransactionDto) (id : String) (now : ℕ)
      → T.find s.rows id ≡ none
      → IsCoherent s
      → IsCoherent (create T same env dto id now s).0
  create-IsCoherent s env dto id now fresh h = elim (create_cases T same env dto id now s) [
    | inl (e, refused) ↦ rw refused h
    | inr (inl (q, row, _, _, replay)) ↦ rw replay h
    | inr (inr (_, _, _, grown)) ↦ rw grown (
        Agrees-put s.rows s.cache id (new_row dto id now) (Agrees-none s.rows s.cache id h fresh) h)
  ]
