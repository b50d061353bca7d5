-- ===== src/Prelude/Rows.antt =====
-- A table of the database whose rows carry their own key, as the generated Prisma client offers it:
-- `find` is findUnique by the key, `find_first` is findFirst (or findUnique by another unique column),
-- `put` is create or update once the data is merged into the row, `remove_many` and `update_many` are
-- deleteMany and updateMany. The laws are what Prisma documents.
use mathlib.Core.Path.{◌≡◌, refl, sym, ap, ◌∙◌, subst}
use mathlib.Core.Logic.{◌≢◌, ◌⊎◌, inl, inr, ite, if_pos, if_neg}
use mathlib.Core.Bool.{Bool, true, false, not}
use mathlib.Core.Option.{Option, none, some}
use mathlib.Core.List.{List, [], ◌∷◌}
use native.Mathlib.Omega.{arith}
use mux_backend.Prelude.Table.{write, write_self, write_other}
use mux_backend.Prelude.Tests.{if◌then◌else◌, Bool-cases, Option-cases}

-- The row, if the test holds of it.
abbrev pub filter_row : {V : Type 0} → (V → Bool) → Option V → Option V
filter_row p none = none
filter_row p (some v) = if p v then some v else none

-- The row, changed if the test holds of it.
abbrev pub change_row : {V : Type 0} → (V → Bool) → (V → V) → Option V → Option V
change_row p f none = none
change_row p f (some v) = some (if p v then f v else v)

pub record RowTable (K V : Type 0) (key : V → K) : Type 1 where
  pub Rows : Type 0
  pub find : Rows → K → Option V
  pub find_first : Rows → (V → Bool) → Option V
  pub put : Rows → V → Rows
  pub remove_many : Rows → (V → Bool) → Rows
  pub update_many : Rows → (V → Bool) → (V → V) → Rows
  pub key-find : (s : Rows) (k : K) (v : V) → find s k ≡ some v → key v ≡ k
  pub find-put : (s : Rows) (v : V) → find (put s v) (key v) ≡ some v
  pub find-put_ne : (s : Rows) (v : V) (j : K) → j ≢ key v → find (put s v) j ≡ find s j
  pub find_first_some :
      (s : Rows) (p : V → Bool) (v : V)
      → find_first s p ≡ some v
      → (p v ≡ true) × (find s (key v) ≡ some v)
  pub find_first_none :
      (s : Rows) (p : V → Bool) (k : K) (v : V)
      → find_first s p ≡ none
      → find s k ≡ some v
      → p v ≡ false
  pub find-remove_many :
      (s : Rows) (p : V → Bool) (k : K)
      → find (remove_many s p) k ≡ filter_row (λ v. not (p v)) (find s k)
  pub find-update_many :
      (s : Rows) (p : V → Bool) (f : V → V) (k : K)
      → ((v : V) → key (f v) ≡ key v)
      → find (update_many s p f) k ≡ change_row p f (find s k)

pub none-some : {V : Type 0} {x : V} → ◌≡◌ {A = Option V} none (some x) → ⊥
none-some q = cc

-- The laws can be met: the function from keys to rows, with a list of the keys ever written.
module _ {K V : Type 0} (key : V → K) (same : Discrete K) where
  abbrev pub In : K → List K → Type 0
  In k [] = ⊥
  In k (j ∷ ks) = (k ≡ j) ⊎ In k ks

  abbrev pub Listed : (K → Option V) → List K → Type 0
  Listed f ks = (k : K) (v : V) → f k ≡ some v → (key v ≡ k) × In k ks

  abbrev pub Stored : Type 0
  Stored = (f : K → Option V) × (ks : List K) × Listed f ks

  abbrev pub scan : (K → Option V) → (V → Bool) → List K → Option V
  scan f p [] = none
  scan f p (k ∷ ks) =
      let rest = scan f p ks in elim (f k) [ none ↦ rest | some v ↦ if p v then some v else rest ]

  some_eq : {a b : V} → ◌≡◌ {A = Option V} (some a) (some b) → a ≡ b
  some_eq e = cc

  scan-some :
      (f : K → Option V) (p : V → Bool) (ks : List K) (v : V)
      → scan f p ks ≡ some v
      → (p v ≡ true) × (k : K) × (f k ≡ some v)
  scan-some f p [] v e = absurd (cc)
  scan-some f p (k ∷ ks) v e = elim (Option-cases (f k)) [
    | inl gone ↦ scan-some f p ks v (rw (gone, scan) at e)
    | inr (w, there) ↦ elim (Bool-cases (p w)) [
      | inr other ↦ scan-some f p ks v (rw (there, other, scan) at e)
      | inl good ↦
          let w_v : w ≡ v = some_eq (rw (there, good, scan) at e) in
          (subst (λ x. p x ≡ true) w_v good, k, there ∙ ap some w_v)
    ]
  ]

  pub scan-none :
      (f : K → Option V) (p : V → Bool) (ks : List K) (k : K) (v : V)
      → scan f p ks ≡ none
      → In k ks
      → f k ≡ some v
      → p v ≡ false
  scan-none f p [] k v e m h = absurd m
  scan-none f p (j ∷ ks) k v e m h = elim (Option-cases (f j)) [
    | inl gone ↦ elim m [
      | inl here ↦ absurd (none-some (sym gone ∙ sym (ap f here) ∙ h))
      | inr later ↦ scan-none f p ks k v (rw (gone, scan) at e) later h
    ]
    | inr (w, there) ↦ elim (Bool-cases (p w)) [
      | inl good ↦ absurd (none-some (sym (rw (there, good, scan) at e)))
      | inr other ↦ elim m [
        | inl here ↦ subst (λ x. p x ≡ false) (some_eq (sym there ∙ sym (ap f here) ∙ h)) other
        | inr later ↦ scan-none f p ks k v (rw (there, other, scan) at e) later h
      ]
    ]
  ]

  pub Listed-put : (s : Stored) (v : V) → Listed (write same s.0 (key v) (some v)) (key v ∷ s.1)
  Listed-put (f, ks, g) v k w e = elim (same k (key v)) [
    | yes p ↦
        let here : write same f (key v) (some v) k ≡ some v =
          subst (λ x. write same f (key v) (some v) x ≡ some v) (sym p)
            (write_self same f (key v) (some v)) in
        (sym (ap key (some_eq (sym here ∙ e))) ∙ sym p, inl p)
    | no p ↦ let (q, m) = g k w (sym (write_other same f (key v) k (some v) p) ∙ e) in (q, inr m)
  ]

  pub Listed-filter :
      (f : K → Option V) (ks : List K) (p : V → Bool)
      → Listed f ks
      → Listed (λ k. filter_row p (f k)) ks
  Listed-filter f ks p g k v e = elim (Option-cases (f k)) [
    | inl gone ↦ absurd (none-some (rw gone at e))
    | inr (w, there) ↦ g k v (there ∙ kept w (rw there at e))
  ]
    where
      kept : (w : V) → filter_row p (some w) ≡ some v → some w ≡ some v
      kept w q = ground arith

  -- A change that would alter the key is not made.
  abbrev pub keeping : (V → V) → V → V
  keeping f v = ite (same (key (f v)) (key v)) (f v) v

  keeping_key : (f : V → V) (v : V) → key (keeping f v) ≡ key v
  keeping_key f v = elim (same (key (f v)) (key v)) [
    | yes p ↦ ap key (if_pos (same (key (f v)) (key v)) p _ _) ∙ p
    | no p ↦ ap key (if_neg (same (key (f v)) (key v)) p _ _)
  ]

  pub Listed-change :
      (f : K → Option V) (ks : List K) (p : V → Bool) (h : V → V)
      → Listed f ks
      → Listed (λ k. change_row p (keeping h) (f k)) ks
  Listed-change f ks p h g k v e = elim (Option-cases (f k)) [
    | inl gone ↦ absurd (none-some (rw gone at e))
    | inr (w, there) ↦
        let (q, m) = g k w there in (sym (ap key (some_eq (rw there at e))) ∙ same_key w ∙ q, m)
  ]
    where
      same_key : (w : V) → key (if p w then keeping h w else w) ≡ key w
      same_key w = elim (Bool-cases (p w)) [ inl t ↦ rw t (keeping_key h w) | inr t ↦ rw t ]

  pub change_keeping :
      (p : V → Bool) (h : V → V) (o : Option V)
      → ((v : V) → key (h v) ≡ key v)
      → change_row p (keeping h) o ≡ change_row p h o
  change_keeping p h none k = refl
  change_keeping p h (some v) k =
      ap (λ w. some (if p v then w else v)) (if_pos (same (key (h v)) (key v)) (k v) _ _)

  pub scan_found :
      (s : Stored) (p : V → Bool) (v : V)
      → scan s.0 p s.1 ≡ some v
      → (p v ≡ true) × (s.0 (key v) ≡ some v)
  scan_found (f, ks, g) p v e =
      let (good, k, there) = scan-some f p ks v e in
      (good, subst (λ x. f x ≡ some v) (sym (g k v there).0) there)

abbrev pub function_rows : {K V : Type 0} (key : V → K) → Discrete K → RowTable K V key
function_rows {K} {V} key same = record {
  Rows = Stored key same;
  find = λ s k. s.0 k;
  find_first = λ s p. scan key same s.0 p s.1;
  put = λ s v. (write same s.0 (key v) (some v), key v ∷ s.1, Listed-put key same s v);
  remove_many = λ s p. (
    λ k. filter_row (λ v. not (p v)) (s.0 k),
    s.1,
    Listed-filter key same s.0 s.1 (λ v. not (p v)) s.2,
  );
  update_many = λ s p f.
      (λ k. change_row p (keeping key same f) (s.0 k), s.1, Listed-change key same s.0 s.1 p f s.2);
  key-find = λ s k v e. (s.2 k v e).0;
  find-put = λ s v. write_self same s.0 (key v) (some v);
  find-put_ne = λ s v j. write_other same s.0 (key v) j (some v);
  find_first_some = λ s p v. scan_found key same s p v;
  find_first_none = λ s p k v e h. scan-none key same s.0 p s.1 k v e (s.2 k v h).1 h;
  find-remove_many = λ s p k. refl;
  find-update_many = λ s p f k h. change_keeping key same p f (s.0 k) h;
}

-- No row.
abbrev pub no_rows : {K V : Type 0} (key : V → K) (same : Discrete K) → Stored key same
no_rows key same = (λ k. none, [], λ k v e. absurd (none-some e))
