-- ===== src/Json/Bounds.antt =====
-- How long the JSON of strings and integers is.
use distributed_p2p_ledger.Base.{
  ℕ, zero, suc, ◌+◌, ◌*◌, ◌/◌, ◌%◌, ◌^◌, ◌≤◌, ◌<◌, inl, inr, Bool-cases, [], ◌∷◌, Bytes, length,
  length-append, ltb, ◌==◌, arith, ℤ, pos, negsuc, ◌<ℤ◌,
}
use distributed_p2p_ledger.Json.{
  Mode, copying, dropping, encode_ascii, is_line_separator, copy_rune, start_rune, encode_runes,
  encode_string, decimal, encode_nat, encode_int,
}

length-encode_ascii : (c : ℕ) → length (encode_ascii c) ≤ 6
unfolding encode_ascii
length-encode_ascii c = ground arith

length-copy_rune : (c width : ℕ) → length (copy_rune c width).0 ≤ 6
unfolding copy_rune
length-copy_rune c zero = omega arith
length-copy_rune c (suc n) = omega arith

length-start_rune : (c : ℕ) (s : Bytes) → length (start_rune c s).0 ≤ 6
unfolding start_rune
length-start_rune c s = elim (Bool-cases (ltb c 0x80)) [
  | inl h ↦ rw (h, start_rune) (length-encode_ascii c)
  | inr h ↦ elim (Bool-cases (is_line_separator (c ∷ s))) [
    | inl k ↦ rw (h, k, start_rune) (omega arith)
    | inr k ↦ rw (h, k, start_rune) (length-copy_rune c _)
  ]
]

length-encode_runes : (m : Mode) (s : Bytes) → length (encode_runes m s) ≤ 6 * length s
unfolding encode_runes
length-encode_runes m [] = omega arith
length-encode_runes (copying (suc n)) (c ∷ s) = omega (arith, length-encode_runes (copying n) s)
length-encode_runes (dropping (suc n)) (c ∷ s) = omega (arith, length-encode_runes (dropping n) s)
length-encode_runes (copying zero) (c ∷ s) = omega (
  arith,
  length-append (start_rune c s).0 (encode_runes (start_rune c s).1 s),
  length-start_rune c s,
  length-encode_runes (start_rune c s).1 s,
)
length-encode_runes (dropping zero) (c ∷ s) = omega (
  arith,
  length-append (start_rune c s).0 (encode_runes (start_rune c s).1 s),
  length-start_rune c s,
  length-encode_runes (start_rune c s).1 s,
)

-- Each byte is escaped by six at most.
pub length-encode_string : (s : Bytes) → length (encode_string s) ≤ 6 * length s + 2
unfolding encode_string
length-encode_string s = omega (
  arith,
  length-append (encode_runes (copying 0) s) (b'"' ∷ []),
  length-encode_runes (copying 0) s,
)

length-decimal :
    (fuel digits n : ℕ) (out : Bytes)
    → n < 10 ^ suc digits
    → length (decimal fuel n out) ≤ suc digits + length out
unfolding decimal
length-decimal zero digits n out h = omega arith
length-decimal (suc fuel) zero n out h = elim (Bool-cases (n / 10 == 0)) [
  | inl last ↦ rw (last, decimal) (omega arith)
  | inr more ↦ absurd (ground arith)
]
length-decimal (suc fuel) (suc digits) n out h = elim (Bool-cases (n / 10 == 0)) [
  | inl last ↦ rw (last, decimal) (omega arith)
  | inr more ↦
      let ih = length-decimal fuel digits (n / 10) ((b'0' + n % 10) ∷ out) (omega (arith, h)) in
      rw (more, decimal) (omega (arith, ih))
]

-- A number below a power of ten has no more digits than the exponent says.
pub length-encode_nat : (digits n : ℕ) → n < 10 ^ suc digits → length (encode_nat n) ≤ suc digits
unfolding encode_nat
length-encode_nat digits n h = omega (arith, length-decimal (suc n) digits n [] h)

-- A positive int64 has at most 19 digits.
pub length-encode_int : (z : ℤ) → pos 0 <ℤ z → z <ℤ pos (2 ^ 63) → length (encode_int z) ≤ 19
unfolding encode_int
length-encode_int (pos n) h k = length-encode_nat 18 n (omega (arith, k))
length-encode_int (negsuc n) h k = absurd (ground arith)
