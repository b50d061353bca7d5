-- ===== src/Common/Memo.antt =====
-- src/common/stellar/memo.util.ts: the check of a transaction's memo. A value is the list of its
-- Unicode code points.
pub mod Accepted
use mux_backend.Prelude.{
  ℕ, ◌+◌, ◌-◌, ◌*◌, Bool, true, false, ◌&&◌, ◌||◌, Option, none, some, List, [], ◌∷◌, ltb, leb,
  ◌==◌, length, if◌then◌else◌,
}
use mux_backend.Prelude.Http.{Result, ok, throw, bad_request}

-- `unsupported` stands for a string that is no member of the enum.
pub data MemoType : Type 0 where
  memo_none memo_text memo_id memo_hash memo_return unsupported : MemoType

pub record MemoInput : Type 0 where
  pub memo_type : MemoType
  pub value : Option (List ℕ)

abbrev pub memo_text_max_bytes : ℕ
memo_text_max_bytes = 28

abbrev pub memo_id_max : ℕ
memo_id_max = 18446744073709551615

abbrev pub memo_hash_hex_length : ℕ
memo_hash_hex_length = 64

-- Buffer.byteLength(value, 'utf8')
abbrev utf8_bytes : ℕ → ℕ
utf8_bytes c =
    if ltb c 0x80 then 1 else (if ltb c 0x800 then 2 else (if ltb c 0x10000 then 3 else 4))

unfoldable pub byte_length : List ℕ → ℕ
byte_length [] = 0
byte_length (c ∷ cs) = utf8_bytes c + byte_length cs

abbrev pub is_digit : ℕ → Bool
is_digit c = leb b'0' c && leb c b'9'

abbrev pub is_hex : ℕ → Bool
is_hex c = is_digit c || (leb b'a' c && leb c b'f') || (leb b'A' c && leb c b'F')

unfoldable pub every : (ℕ → Bool) → List ℕ → Bool
every p [] = true
every p (c ∷ cs) = p c && every p cs

-- BigInt(value) of a string of digits.
unfoldable pub big_int_from : ℕ → List ℕ → ℕ
big_int_from n [] = n
big_int_from n (c ∷ cs) = big_int_from (n * 10 + (c - b'0')) cs

abbrev reject_unless : Bool → Result (Unit {0})
reject_unless true = ok tt
reject_unless false = throw bad_request

-- The `switch`, at a value that is not empty. All characters that pass the hexadecimal test are
-- ASCII, so the number of code points is the `length` of the string.
unfoldable pub validate_value : MemoType → List ℕ → Result (Unit {0})
validate_value memo_none v = ok tt
validate_value memo_text v = reject_unless (leb (byte_length v) memo_text_max_bytes)
validate_value memo_id v = reject_unless (every is_digit v && leb (big_int_from 0 v) memo_id_max)
validate_value memo_hash v = reject_unless (every is_hex v && (length v == memo_hash_hex_length))
validate_value memo_return v = reject_unless (every is_hex v && (length v == memo_hash_hex_length))
validate_value unsupported v = throw bad_request

-- A missing or empty value is refused, but not where the type is MEMO_NONE.
abbrev validate_input : MemoType → Option (List ℕ) → Result (Unit {0})
validate_input memo_none v = ok tt
validate_input t none = throw bad_request
validate_input t (some []) = throw bad_request
validate_input t (some (c ∷ cs)) = validate_value t (c ∷ cs)

unfoldable pub validate_memo : Option MemoInput → Result (Unit {0})
validate_memo none = ok tt
validate_memo (some m) = validate_input m.memo_type m.value
