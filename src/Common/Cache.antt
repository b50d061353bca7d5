-- ===== src/Common/Cache.antt =====
-- src/common/cache/cache.service.ts: a map from keys to values that expire. The `Map` is an
-- association list with one entry a key; times are milliseconds; keys are compared by a decision.
-- The default of `ttl` is put in by the caller.
pub mod Coherence
pub mod Laws
use mux_backend.Prelude.{
  ℕ, ◌+◌, Bool, true, false, Option, none, some, List, [], ◌∷◌, ltb, length, if◌then◌else◌,
}
use mathlib.Core.Logic.{ite}

pub record CacheEntry (V : Type 0) : Type 0 where
  pub value : V
  pub expires_at : ℕ

abbrev pub CacheMap : Type 0 → Type 0 → Type 0
CacheMap K V = List (K × CacheEntry V)

module _ {K V : Type 0} (same : Discrete K) where
  -- Map.get, Map.delete and Map.set.
  unfoldable pub map_get : K → CacheMap K V → Option (CacheEntry V)
  map_get k [] = none
  map_get k ((j, e) ∷ m) = ite (same j k) (some e) (map_get k m)

  unfoldable pub map_delete : K → CacheMap K V → CacheMap K V
  map_delete k [] = []
  map_delete k ((j, e) ∷ m) = let rest = map_delete k m in ite (same j k) rest ((j, e) ∷ rest)

  abbrev pub map_set : K → CacheEntry V → CacheMap K V → CacheMap K V
  map_set k e m = (k, e) ∷ map_delete k m

  -- `get`: an expired entry is deleted and not returned.
  unfoldable pub get : K → ℕ → CacheMap K V → Option V × CacheMap K V
  get k now m = elim (map_get k m) [
    | none ↦ (none, m)
    | some e ↦ if ltb e.expires_at now then (none, map_delete k m) else (some e.value, m)
  ]

  unfoldable pub set : K → V → ℕ → ℕ → CacheMap K V → CacheMap K V
  set k v ttl now m = map_set k (record { value = v; expires_at = now + ttl }) m

  unfoldable pub delete : K → CacheMap K V → Bool × CacheMap K V
  delete k m = elim (map_get k m) [ none ↦ (false, m) | some e ↦ (true, map_delete k m) ]

  unfoldable pub clear : CacheMap K V → CacheMap K V
  clear m = []

  unfoldable pub size : CacheMap K V → ℕ
  size m = length m
