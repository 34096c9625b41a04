-- ===== src/Text/Space.antt =====
-- strings.TrimSpace and strings.TrimRight with one byte as its cutset.
use mathlib.Core.List.{reverse}
use distributed_p2p_ledger.Base.{
  ℕ, zero, suc, Bool, ◌&&◌, ◌||◌, [], ◌∷◌, Bytes, leb, ◌==◌, if◌then◌else◌,
}

ascii_space : ℕ → Bool
ascii_space c = leb 9 c && leb c 13 || c == 0x20

-- The three bytes of U+1680, U+2000..U+200A, U+2028, U+2029, U+202F, U+205F or U+3000.
space3 : ℕ → ℕ → ℕ → Bool
space3 a b c =
    a == 0xe1 && b == 0x9a && c == 0x80
    || a == 0xe2 && b == 0x80 && (leb 0x80 c && leb c 0x8a || c == 0xa8 || c == 0xa9 || c == 0xaf)
    || a == 0xe2 && b == 0x81 && c == 0x9f
    || a == 0xe3 && b == 0x80 && c == 0x80

-- U+0085 and U+00A0
space2 : ℕ → ℕ → Bool
space2 a b = a == 0xc2 && (b == 0x85 || b == 0xa0)

-- The width of the white space (unicode.IsSpace) at the front, or 0.
space_width : Bytes → ℕ
unfolding ascii_space space2 space3
space_width (a ∷ b ∷ c ∷ s) =
    if ascii_space a then 1 else if space2 a b then 2 else if space3 a b c then 3 else 0
space_width (a ∷ b ∷ []) = if ascii_space a then 1 else if space2 a b then 2 else 0
space_width (a ∷ []) = if ascii_space a then 1 else 0
space_width [] = 0

-- The same of the white space at the back, read on the reversed bytes.
space_width_back : Bytes → ℕ
unfolding ascii_space space2 space3
space_width_back (c ∷ b ∷ a ∷ s) =
    if ascii_space c then 1 else if space2 b c then 2 else if space3 a b c then 3 else 0
space_width_back (b ∷ a ∷ []) = if ascii_space b then 1 else if space2 a b then 2 else 0
space_width_back (a ∷ []) = if ascii_space a then 1 else 0
space_width_back [] = 0

-- Drops spaces as long as `width` finds one; `skip` bytes of the current one are still to go.
trim_front : (Bytes → ℕ) → ℕ → Bytes → Bytes
trim_front width skip [] = []
trim_front width (suc skip) (c ∷ s) = trim_front width skip s
trim_front width zero (c ∷ s) = elim (width (c ∷ s)) [ zero ↦ c ∷ s | suc n ↦ trim_front width n s ]

unfoldable pub trim_left_space : Bytes → Bytes
unfolding trim_front space_width
trim_left_space s = trim_front space_width 0 s

-- strings.TrimSpace
unfoldable pub trim_space : Bytes → Bytes
unfolding trim_left_space trim_front space_width_back
trim_space s = reverse (trim_front space_width_back 0 (reverse (trim_left_space s)))

drop_byte : ℕ → Bytes → Bytes
drop_byte b [] = []
drop_byte b (c ∷ s) = let rest = drop_byte b s in if c == b then rest else c ∷ s

-- strings.TrimRight(s, string(b))
unfoldable pub trim_right_byte : ℕ → Bytes → Bytes
unfolding drop_byte
trim_right_byte b s = reverse (drop_byte b (reverse s))
