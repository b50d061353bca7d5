-- ===== src/Tests/Data.antt =====
-- What the examples share.
use mathlib.Core.Path.{refl}
use mux_backend.Prelude.{String, ◌≡◌, Bool, true, false, str_eq, str_eq_iff}

pub true_is_not_false : {c : Bool} → c ≡ false → c ≡ true → ⊥
true_is_not_false e f = cc

-- Two texts are compared by the library's Boolean equality.
abbrev pub decide_by : (a b : String) (t : Bool) → str_eq a b ≡ t → Dec (a ≡ b)
decide_by a b true e = yes ((str_eq_iff a b).0 e)
decide_by a b false e = no (λ p. true_is_not_false e ((str_eq_iff a b).1 p))

unfoldable pub string_discrete : Discrete String
string_discrete a b = decide_by a b (str_eq a b) refl
