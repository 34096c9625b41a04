-- ===== src/Text.antt =====
-- What the code uses of the packages strings and unicode/utf8, on byte strings.
mod Utf8
mod Space
mod Atoi
unfoldable pub use Utf8.{rune_width, valid_string}
unfoldable pub use Atoi.{digits_from, parse_digits, atoi}
unfoldable pub use Space.{trim_left_space, trim_space, trim_right_byte}
use distributed_p2p_ledger.Base.{ℕ, ◌≡◌, refl, true, false, [], ◌∷◌, ◌++◌, codes, Bytes, replicate}

-- strings.Repeat(string(c), n) for a byte c
abbrev pub repeat_byte : ℕ → ℕ → Bytes
repeat_byte c n = replicate n c

cafe_valid : valid_string (codes "caf" ++ 0xc3 ∷ 0xa9 ∷ []) ≡ true
unfolding valid_string
cafe_valid = refl

-- A surrogate half, an overlong form and a rune that is cut off are not valid.
surrogate_invalid : valid_string (0xed ∷ 0xa0 ∷ 0x80 ∷ []) ≡ false
unfolding valid_string
surrogate_invalid = refl

overlong_invalid : valid_string (0xc0 ∷ 0x80 ∷ []) ≡ false
unfolding valid_string
overlong_invalid = refl

cut_invalid : valid_string (0xf0 ∷ 0x9f ∷ 0x98 ∷ []) ≡ false
unfolding valid_string
cut_invalid = refl

-- U+3000 in front, a tab and U+0085 behind.
trim_both :
    trim_space (0xe3 ∷ 0x80 ∷ 0x80 ∷ b'a' ∷ b' ' ∷ b'b' ∷ 9 ∷ 0xc2 ∷ 0x85 ∷ []) ≡ codes "a b"
unfolding trim_space
trim_both = refl

trim_slashes : trim_right_byte b'/' (codes "http://a//") ≡ codes "http://a"
unfolding trim_right_byte
trim_slashes = refl
