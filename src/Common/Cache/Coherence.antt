-- ===== src/Common/Cache/Coherence.antt =====
-- A cache in front of a table (cache.service.ts as the services use it): every entry is the row of
-- its key.
use mux_backend.Prelude.{
  ℕ, String, ◌≡◌, sym, ap, ◌∙◌, ◌≢◌, inl, inr, Option, none, some, arith, Option-cases,
}
use mux_backend.Common.Cache.{CacheEntry, CacheMap, map_get, get, set, delete}
use mux_backend.Common.Cache.Laws.{
  map_get_of_get, map_get_of_set, map_get_of_delete, map_get-delete_self,
}

module _ {V : Type 0} (same : Discrete String) where
  -- `find` is the table.
  abbrev pub Agrees : (String → Option V) → CacheMap String V → Type 0
  Agrees find cache =
      (id : String) (e : CacheEntry V) → map_get same id cache ≡ some e → find id ≡ some e.value

  pub Agrees-get :
      (find : String → Option V) (cache : CacheMap String V) (k : String) (now : ℕ)
      → Agrees find cache
      → Agrees find (get same k now cache).1
  Agrees-get find cache k now h id e p = h id e (map_get_of_get same id k now cache e p)

  pub Agrees-set :
      (find : String → Option V) (cache : CacheMap String V) (k : String) (ttl now : ℕ) (v : V)
      → find k ≡ some v
      → Agrees find cache
      → Agrees find (set same k v ttl now cache)
  Agrees-set find cache k ttl now v f h id e p =
      elim (map_get_of_set same id k v ttl now cache e p) [
        | inl (q, w) ↦ rw (q, w) f
        | inr old ↦ h id e old
      ]

  -- A change of the row of one key, whose entry is deleted.
  pub Agrees-change :
      (find find' : String → Option V) (cache : CacheMap String V) (k : String)
      → ((j : String) → j ≢ k → find' j ≡ find j)
      → Agrees find cache
      → Agrees find' (delete same k cache).1
  unfolding delete
  Agrees-change find find' cache k others h id e p = elim (same id k) [
    | yes q ↦ absurd (missing (rw q at p))
    | no q ↦ others id q ∙ h id e (kept p)
  ]
    where
      missing : map_get same k (delete same k cache).1 ≡ some e → ⊥
      missing m = let gone = map_get-delete_self same k cache in ground arith

      kept : map_get same id (delete same k cache).1 ≡ some e → map_get same id cache ≡ some e
      kept m = ground (arith, map_get_of_delete same id k cache e)

  -- A new row under a key that was free.
  pub Agrees-new :
      (find find' : String → Option V) (cache : CacheMap String V) (k : String)
      → find k ≡ none
      → ((j : String) → j ≢ k → find' j ≡ find j)
      → Agrees find cache
      → Agrees find' cache
  Agrees-new find find' cache k free others h id e p = elim (same id k) [
    | yes q ↦ absurd (clash (sym free ∙ sym (ap find q) ∙ h id e p))
    | no q ↦ others id q ∙ h id e p
  ]
    where
      clash : ◌≡◌ {A = Option V} none (some e.value) → ⊥
      clash q = cc

  -- What a cached read returns is the row.
  pub Agrees-hit :
      (find : String → Option V) (cache : CacheMap String V) (k : String) (now : ℕ) (v : V)
      → Agrees find cache
      → (get same k now cache).0 ≡ some v
      → find k ≡ some v
  unfolding get
  Agrees-hit find cache k now v h e = elim (Option-cases (map_get same k cache)) [
    | inl miss ↦ ground arith
    | inr (x, hit) ↦ let stored = h k x hit in ground arith
  ]
