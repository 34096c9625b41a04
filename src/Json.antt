-- ===== src/Json.antt =====
-- encoding/json: what `Marshal` writes for integers, strings and slices.
pub mod Bounds
use distributed_p2p_ledger.Base.{
  ℕ, zero, suc, ◌+◌, ◌/◌, ◌%◌, ◌≡◌, refl, Bool, false, ◌&&◌, ◌||◌, List, [], ◌∷◌, ◌++◌, Bytes,
  codes, ltb, ◌==◌, if◌then◌else◌, ℤ, pos, negsuc, Slice, nil_slice, slice, Option,
}
use distributed_p2p_ledger.Text.{rune_width}
use distributed_p2p_ledger.Sha.{hex_digit}

-- A strict decoder: json.NewDecoder with DisallowUnknownFields. `first` is what the first call of Decode
-- reads, and `at_end` tells whether a second call returns io.EOF.
pub record JsonDecoder (A : Type 0) : Type 0 where
  pub first : Bytes → Option A
  pub at_end : Bytes → Bool

-- Decimal digits before `out`. A number has fewer digits than its successor counts.
pub decimal : ℕ → ℕ → Bytes → Bytes
decimal zero n out = out
decimal (suc fuel) n out =
    let shown = (b'0' + n % 10) ∷ out in
    let rest = decimal fuel (n / 10) shown in if n / 10 == 0 then shown else rest

unfoldable pub encode_nat : ℕ → Bytes
unfolding decimal
encode_nat n = decimal (suc n) n []

unfoldable pub encode_int : ℤ → Bytes
unfolding encode_nat
encode_int (pos n) = encode_nat n
encode_int (negsuc n) = b'-' ∷ encode_nat (suc n)

-- An ASCII character inside a string: HTML characters are escaped too.
unfoldable pub encode_ascii : ℕ → Bytes
encode_ascii c =
    if c == b'"' || c == 0x5c
    then 0x5c ∷ c ∷ []
    else if c == 8
    then codes "\\b"
    else if c == 9
    then codes "\\t"
    else if c == 10
    then codes "\\n"
    else if c == 12
    then codes "\\f"
    else if c == 13
    then codes "\\r"
    else if ltb c 0x20 || c == b'<' || c == b'>' || c == b'&'
    then codes "\\u00" ++ hex_digit (c / 16) ∷ hex_digit (c % 16) ∷ []
    else c ∷ []

-- U+2028 and U+2029, which JavaScript takes for line ends.
pub is_line_separator : Bytes → Bool
is_line_separator (a ∷ b ∷ c ∷ s) = a == 0xe2 && b == 0x80 && (c == 0xa8 || c == 0xa9)
is_line_separator _ = false

third : Bytes → ℕ
third (a ∷ b ∷ c ∷ s) = c
third _ = 0

-- How many bytes of the current rune are still to come, and whether they are written.
pub data Mode : Type 0 where
  copying : ℕ → Mode
  dropping : ℕ → Mode

-- The first byte of a rune of this width; an invalid byte is replaced.
pub copy_rune : ℕ → ℕ → Bytes × Mode
copy_rune c zero = (codes "\\ufffd", copying 0)
copy_rune c (suc n) = (c ∷ [], copying n)

-- What the first byte of a rune writes, and the mode for the bytes behind it.
pub start_rune : ℕ → Bytes → Bytes × Mode
unfolding rune_width encode_ascii is_line_separator third copy_rune
start_rune c s =
    if ltb c 0x80
    then (encode_ascii c, copying 0)
    else if is_line_separator (c ∷ s)
    then (codes "\\u202" ++ hex_digit (third (c ∷ s) % 16) ∷ [], dropping 2)
    else copy_rune c (rune_width (c ∷ s))

pub encode_runes : Mode → Bytes → Bytes
unfolding start_rune
encode_runes m [] = []
encode_runes (copying (suc n)) (c ∷ s) = c ∷ encode_runes (copying n) s
encode_runes (dropping (suc n)) (c ∷ s) = encode_runes (dropping n) s
encode_runes (copying zero) (c ∷ s) = let (out, m) = start_rune c s in out ++ encode_runes m s
encode_runes (dropping zero) (c ∷ s) = let (out, m) = start_rune c s in out ++ encode_runes m s

unfoldable pub encode_string : Bytes → Bytes
unfolding encode_runes start_rune
encode_string s = b'"' ∷ encode_runes (copying 0) s ++ b'"' ∷ []

module _ {A : Type 0} (encode : A → Bytes) where
  -- The elements behind the first one.
  encode_rest : List A → Bytes
  encode_rest [] = b']' ∷ []
  encode_rest (x ∷ xs) = b',' ∷ encode x ++ encode_rest xs

  unfoldable pub encode_list : List A → Bytes
  unfolding encode_rest
  encode_list [] = codes "[]"
  encode_list (x ∷ xs) = b'[' ∷ encode x ++ encode_rest xs

  unfoldable pub encode_slice : Slice A → Bytes
  unfolding encode_list
  encode_slice nil_slice = codes "null"
  encode_slice (slice xs) = encode_list xs

numbers :
    encode_list encode_int (pos 0 ∷ negsuc 41 ∷ pos 1767225600 ∷ []) ≡ codes "[0,-42,1767225600]"
unfolding encode_list encode_int
numbers = refl

-- <&é, a line feed, U+2028 and an invalid byte.
escapes :
    encode_string (b'<' ∷ b'&' ∷ 0xc3 ∷ 0xa9 ∷ 10 ∷ 0xe2 ∷ 0x80 ∷ 0xa8 ∷ 0xff ∷ [])
    ≡ codes "\"\\u003c\\u0026" ++ 0xc3 ∷ 0xa9 ∷ codes "\\n\\u2028\\ufffd\""
unfolding encode_string
escapes = refl
