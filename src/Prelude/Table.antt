-- ===== src/Prelude/Table.antt =====
-- One table of the database, as the services see it through the generated Prisma client, which is
-- not part of the repository: `find` is `findUnique` on a unique key, and `put` writes the whole
-- row of a key, which `create`, `update` and `upsert` do once their data is merged into the row.
-- The laws are what Prisma documents: a written row is read back, and other keys keep their rows.
use mathlib.Core.Path.{◌≡◌, refl, sym, ap}
use mathlib.Core.Logic.{◌≢◌, ite, if_pos, if_neg}
use mathlib.Core.Option.{Option, none, some}

pub record Table (K V : Type 0) : Type 1 where
  pub Rows : Type 0
  pub find : Rows → K → Option V
  pub put : Rows → K → V → Rows
  pub remove : Rows → K → Rows
  pub find-put : (s : Rows) (k : K) (v : V) → find (put s k v) k ≡ some v
  pub find-put_ne : (s : Rows) (k j : K) (v : V) → j ≢ k → find (put s k v) j ≡ find s j
  pub find-remove : (s : Rows) (k : K) → find (remove s k) k ≡ none
  pub find-remove_ne : (s : Rows) (k j : K) → j ≢ k → find (remove s k) j ≡ find s j

-- The laws can be met: a table as the function from its keys to their rows.
module _ {K V : Type 0} (same : Discrete K) where
  abbrev pub write : (K → Option V) → K → Option V → K → Option V
  write s k r j = ite (same j k) r (s j)

  pub write_self : (s : K → Option V) (k : K) (r : Option V) → write s k r k ≡ r
  write_self s k r = if_pos (same k k) refl _ _

  pub write_other : (s : K → Option V) (k j : K) (r : Option V) → j ≢ k → write s k r j ≡ s j
  write_other s k j r h = if_neg (same j k) h _ _

abbrev pub function_table : {K V : Type 0} → Discrete K → Table K V
function_table {K} {V} same = record {
  Rows = K → Option V;
  find = λ s k. s k;
  put = λ s k v. write same s k (some v);
  remove = λ s k. write same s k none;
  find-put = λ s k v. write_self same s k (some v);
  find-put_ne = λ s k j v. write_other same s k j (some v);
  find-remove = λ s k. write_self same s k none;
  find-remove_ne = λ s k j. write_other same s k j none;
}

-- A table whose rows have a second unique key, which may be null: `find_by` is `findUnique` on it.
-- A row that is written is found by its second key; a key that neither the new row nor the one that
-- it replaces has is found as before.
pub record IndexedTable (K V : Type 0) (key : V → Option K) : Type 1 where
  pub table : Table K V
  pub open table use *
  pub find_by : Rows → K → Option V
  pub find_by-put :
      (s : Rows) (k : K) (v : V) (q : K) → key v ≡ some q → find_by (put s k v) q ≡ some v
  pub find_by-put_ne :
      (s : Rows) (k : K) (v : V) (q : K)
      → key v ≢ some q
      → ((old : V) → find s k ≡ some old → key old ≢ some q)
      → find_by (put s k v) q ≡ find_by s q

module _ {K V : Type 0} (same : Discrete K) where
  abbrev pub write_by : (K → Option V) → Option K → V → K → Option V
  write_by s none v j = s j
  write_by s (some k) v j = ite (same j k) (some v) (s j)

  pub write_by_self :
      (s : K → Option V) (o : Option K) (v : V) (q : K) → o ≡ some q → write_by s o v q ≡ some v
  write_by_self s o v q e = rw e (if_pos (same q q) refl _ _)

  pub write_by_other :
      (s : K → Option V) (o : Option K) (v : V) (q : K) → o ≢ some q → write_by s o v q ≡ s q
  write_by_other s none v q h = refl
  write_by_other s (some k) v q h = if_neg (same q k) (λ e. h (ap some (sym e))) _ _

-- The laws can be met: one function for each of the two keys.
abbrev pub function_indexed_table :
    {K V : Type 0} → Discrete K → (key : V → Option K) → IndexedTable K V key
function_indexed_table {K} {V} same key = record {
  table = record {
    Rows = (K → Option V) × (K → Option V);
    find = λ s k. s.0 k;
    put = λ s k v. (write same s.0 k (some v), write_by same s.1 (key v) v);
    remove = λ s k. (write same s.0 k none, s.1);
    find-put = λ s k v. write_self same s.0 k (some v);
    find-put_ne = λ s k j v. write_other same s.0 k j (some v);
    find-remove = λ s k. write_self same s.0 k none;
    find-remove_ne = λ s k j. write_other same s.0 k j none;
  };
  find_by = λ s q. s.1 q;
  find_by-put = λ s k v q e. write_by_self same s.1 (key v) v q e;
  find_by-put_ne = λ s k v q h _. write_by_other same s.1 (key v) v q h;
}
