-- ===== src/Common/Cache/Laws.antt =====
-- What the cache promises (cache.service.ts).
use mux_backend.Prelude.{
  sym, ◌∙◌, ◌⊎◌, some, ℕ, ◌+◌, ◌≤◌, ◌<◌, ◌≡◌, refl, ◌≢◌, none, some, [], ◌∷◌, arith,
}
use mux_backend.Common.Cache.{CacheEntry, CacheMap, map_get, map_delete, get, set, delete}

module _ {K V : Type 0} (same : Discrete K) where
  pub map_get-map_delete_self :
      (k : K) (m : CacheMap K V) → map_get same k (map_delete same k m) ≡ none
  unfolding map_get map_delete
  map_get-map_delete_self k [] = refl
  map_get-map_delete_self k ((j, e) ∷ m) = ground (arith, map_get-map_delete_self k m)

  pub map_get-map_delete_ne :
      (j k : K) (m : CacheMap K V) → j ≢ k → map_get same j (map_delete same k m) ≡ map_get same j m
  unfolding map_get map_delete
  map_get-map_delete_ne j k [] h = refl
  map_get-map_delete_ne j k ((i, e) ∷ m) h = ground (arith, map_get-map_delete_ne j k m)

  pub map_get-delete_self : (k : K) (m : CacheMap K V) → map_get same k (delete same k m).1 ≡ none
  unfolding delete
  map_get-delete_self k m = ground (arith, map_get-map_delete_self k m)

  pub map_get-delete_ne :
      (j k : K) (m : CacheMap K V) → j ≢ k → map_get same j (delete same k m).1 ≡ map_get same j m
  unfolding delete
  map_get-delete_ne j k m h = ground (arith, map_get-map_delete_ne j k m)

  -- What an entry that is there after an operation was before it.
  pub map_get_of_delete :
      (j k : K) (m : CacheMap K V) (e : CacheEntry V)
      → map_get same j (map_delete same k m) ≡ some e
      → (j ≢ k) × (map_get same j m ≡ some e)
  map_get_of_delete j k m e p = elim (same j k) [
    | yes q ↦ absurd (kept (rw q at p))
    | no q ↦ (q, sym (map_get-map_delete_ne j k m q) ∙ p)
  ]
    where
      kept : map_get same k (map_delete same k m) ≡ some e → ⊥
      kept h = ground (arith, map_get-map_delete_self k m)

  pub map_get_of_get :
      (j k : K) (now : ℕ) (m : CacheMap K V) (e : CacheEntry V)
      → map_get same j (get same k now m).1 ≡ some e
      → map_get same j m ≡ some e
  unfolding get
  map_get_of_get j k now m e p = ground (arith, map_get_of_delete j k m e)

  pub map_get_of_set :
      (j k : K) (v : V) (ttl now : ℕ) (m : CacheMap K V) (e : CacheEntry V)
      → map_get same j (set same k v ttl now m) ≡ some e
      → ((j ≡ k) × (e.value ≡ v)) ⊎ (map_get same j m ≡ some e)
  unfolding set map_get
  map_get_of_set j k v ttl now m e p = ground (arith, map_get_of_delete j k m e)

  -- A value is returned until its time to live has passed, and no longer; the other keys are served
  -- as before.
  get-set :
      (j k : K) (v : V) (ttl t now : ℕ) (m : CacheMap K V)
      → ((now ≤ t + ttl) → (get same k now (set same k v ttl t m)).0 ≡ some v)
        × ((t + ttl < now) → (get same k now (set same k v ttl t m)).0 ≡ none)
        × (j ≢ k → (get same j now (set same k v ttl t m)).0 ≡ (get same j now m).0)
  unfolding get set map_get
  get-set j k v ttl t now m =
      (λ h. ground arith, λ h. ground arith, λ h. ground (arith, map_get-map_delete_ne j k m))

  -- A deleted key is not found at any later time; the other keys are served as before.
  pub get-delete :
      (j k : K) (now : ℕ) (m : CacheMap K V)
      → ((get same k now (delete same k m).1).0 ≡ none)
        × (j ≢ k → (get same j now (delete same k m).1).0 ≡ (get same j now m).0)
  unfolding get delete
  get-delete j k now m = (
    ground (arith, map_get-map_delete_self k m),
    λ h. ground (arith, map_get-map_delete_ne j k m h),
  )

  -- Reading does not change what a later reading of any key returns.
  get-get :
      (j k : K) (now later : ℕ) (m : CacheMap K V)
      → now ≤ later
      → (get same j later (get same k now m).1).0 ≡ (get same j later m).0
  unfolding get
  get-get j k now later m h = elim (same j k) [
    | yes e ↦ rw e (ground (arith, map_get-map_delete_self k m))
    | no other ↦ ground (arith, map_get-map_delete_ne j k m other)
  ]
