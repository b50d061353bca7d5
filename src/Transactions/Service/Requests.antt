-- ===== src/Transactions/Service/Requests.antt =====
-- Sequences of requests to the transaction service, one after the other (transactions.service.ts).
-- A request that throws has its state kept, and the next one goes on from there.
use mux_backend.Prelude.{ℕ, String, ◌≡◌, none, List, [], ◌∷◌}
use mux_backend.Prelude.Table.{IndexedTable}
use mux_backend.Transactions.Service.{
  TransactionRow, key_of, CreateTransactionDto, UpdateTransactionStatusDto, Environment, State,
  create, find_one, update_status,
}
use mux_backend.Transactions.Service.Coherence.{
  IsCoherent, find_one-IsCoherent, update_status-IsCoherent, create-IsCoherent,
}

-- A creation comes with the identifier that the database will draw.
pub data Request : Type 0 where
  creates : Environment → CreateTransactionDto → String → ℕ → Request
  reads : String → ℕ → Request
  updates : String → UpdateTransactionStatusDto → ℕ → Request

module _ (T : IndexedTable String TransactionRow key_of) (same : Discrete String) where
  unfoldable pub step : State T same → Request → State T same
  step s (creates env dto id now) = (create T same env dto id now s).0
  step s (reads id now) = (find_one T same id now s).0
  step s (updates id dto now) = (update_status T same id dto now s).0

  unfoldable pub run : State T same → List Request → State T same
  run s [] = s
  run s (q ∷ qs) = run (step s q) qs

  -- The identifiers that the database draws are not in use.
  abbrev pub IsFresh : State T same → Request → Type 0
  IsFresh s (creates env dto id now) = T.find s.rows id ≡ none
  IsFresh s (reads id now) = Unit {0}
  IsFresh s (updates id dto now) = Unit {0}

  unfoldable pub AllFresh : State T same → List Request → Type 0
  AllFresh s [] = Unit {0}
  AllFresh s (q ∷ qs) = IsFresh s q × AllFresh (step s q) qs

  step-IsCoherent :
      (s : State T same) (q : Request)
      → IsFresh s q
      → IsCoherent T same s
      → IsCoherent T same (step s q)
  unfolding step
  step-IsCoherent s (creates env dto id now) fresh h =
      create-IsCoherent T same s env dto id now fresh h
  step-IsCoherent s (reads id now) fresh h = find_one-IsCoherent T same s id now h
  step-IsCoherent s (updates id dto now) fresh h = update_status-IsCoherent T same s id dto now h

  -- Whatever requests are served, every cached transaction stays the stored one.
  pub run-IsCoherent :
      (s : State T same) (qs : List Request)
      → AllFresh s qs
      → IsCoherent T same s
      → IsCoherent T same (run s qs)
  unfolding run AllFresh
  run-IsCoherent s [] fresh h = h
  run-IsCoherent s (q ∷ qs) fresh h =
      run-IsCoherent (step s q) qs fresh.1 (step-IsCoherent s q fresh.0 h)
