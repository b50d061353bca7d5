-- ===== src/Common/Memo/Accepted.antt =====
-- What the check of a memo lets through (memo.util.ts).
use mux_backend.Prelude.{
  ℕ, ◌^◌, ◌≤◌, ◌<◌, ◌≡◌, refl, ◌↔◌, ◌⊎◌, true, Option, none, some, List, [], ◌∷◌, arith, length,
}
use mux_backend.Prelude.Http.{ok}
use mux_backend.Common.Memo.{
  MemoType, memo_none, memo_text, memo_id, memo_hash, memo_return, unsupported, byte_length,
  is_digit, is_hex, every, big_int_from, validate_value, validate_memo,
}

-- Every code point of a list satisfies P.
abbrev pub All : (ℕ → Type 0) → List ℕ → Type 0
All P [] = Unit {0}
All P (c ∷ cs) = P c × All P cs

abbrev pub IsDigit : ℕ → Type 0
IsDigit c = (b'0' ≤ c) × (c ≤ b'9')

abbrev pub IsHex : ℕ → Type 0
IsHex c = IsDigit c ⊎ ((b'a' ≤ c) × (c ≤ b'f')) ⊎ ((b'A' ≤ c) × (c ≤ b'F'))

-- Stellar's limits on a memo of each type, apart from the code.
abbrev pub FitsValue : MemoType → List ℕ → Type 0
FitsValue memo_none v = Unit {0}
FitsValue memo_text v = byte_length v ≤ 28
FitsValue memo_id v = All IsDigit v × (big_int_from 0 v < 2 ^ 64)
FitsValue memo_hash v = All IsHex v × (length v ≡ 64)
FitsValue memo_return v = All IsHex v × (length v ≡ 64)
FitsValue unsupported v = ⊥

abbrev pub Fits : MemoType → Option (List ℕ) → Type 0
Fits memo_none v = Unit {0}
Fits t none = ⊥
Fits t (some []) = ⊥
Fits t (some (c ∷ cs)) = FitsValue t (c ∷ cs)

digits : (v : List ℕ) → (every is_digit v ≡ true) ↔ All IsDigit v
unfolding every
digits [] = (λ e. tt, λ h. refl)
digits (c ∷ cs) = (λ e. ground (arith, digits cs), λ h. ground (arith, digits cs))

hexes : (v : List ℕ) → (every is_hex v ≡ true) ↔ All IsHex v
unfolding every
hexes [] = (λ e. tt, λ h. refl)
hexes (c ∷ cs) = (λ e. ground (arith, hexes cs), λ h. ground (arith, hexes cs))

validate_value_iff : (t : MemoType) (v : List ℕ) → (validate_value t v ≡ ok tt) ↔ FitsValue t v
unfolding validate_value
validate_value_iff memo_none v = (λ e. tt, λ h. refl)
validate_value_iff memo_text v = (λ e. ground arith, λ h. ground arith)
validate_value_iff memo_id v = (λ e. ground (arith, digits v), λ h. ground (arith, digits v))
validate_value_iff memo_hash v = (λ e. ground (arith, hexes v), λ h. ground (arith, hexes v))
validate_value_iff memo_return v = (λ e. ground (arith, hexes v), λ h. ground (arith, hexes v))
validate_value_iff unsupported v = (λ e. cc, λ h. absurd h)

-- The check passes exactly when there is no memo, its type is MEMO_NONE, or its value is not empty
-- and keeps to Stellar's limits: a text of at most 28 bytes in UTF-8, a decimal numeral below 2^64,
-- or 64 hexadecimal digits.
validate_memo_iff :
    (t : MemoType) (v : Option (List ℕ))
    → (validate_memo (some (record { memo_type = t; value = v })) ≡ ok tt) ↔ Fits t v
unfolding validate_memo
validate_memo_iff memo_none v = (λ e. tt, λ h. refl)
validate_memo_iff t none = (λ e. cc, λ h. absurd h)
validate_memo_iff t (some []) = (λ e. cc, λ h. absurd h)
validate_memo_iff t (some (c ∷ cs)) = validate_value_iff t (c ∷ cs)
