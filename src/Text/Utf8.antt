-- ===== src/Text/Utf8.antt =====
-- unicode/utf8: the width of the rune at the front of a byte string, and `ValidString`.
use distributed_p2p_ledger.Base.{
  ℕ, zero, suc, Bool, true, false, ◌&&◌, ◌||◌, [], ◌∷◌, Bytes, ltb, leb, ◌==◌, if◌then◌else◌,
}

abbrev within : ℕ → ℕ → ℕ → Bool
within lo hi c = leb lo c && leb c hi

-- The rest of a rune: `n` bytes, the first in lo..hi and the others in 80..BF.
continues : ℕ → ℕ → ℕ → Bytes → Bool
continues zero lo hi s = true
continues (suc n) lo hi [] = false
continues (suc n) lo hi (c ∷ s) = within lo hi c && continues n 0x80 0xbf s

-- The width of the first rune, or 0 where DecodeRuneInString returns (RuneError, 1) or there is none.
unfoldable pub rune_width : Bytes → ℕ
unfolding continues
rune_width [] = 0
rune_width (c ∷ s) =
    if ltb c 0x80
    then 1
    else if within 0xc2 0xdf c && continues 1 0x80 0xbf s
    then 2
    else if c == 0xe0 && continues 2 0xa0 0xbf s
    then 3
    else if (within 0xe1 0xec c || within 0xee 0xef c) && continues 2 0x80 0xbf s
    then 3
    else if c == 0xed && continues 2 0x80 0x9f s
    then 3
    else if c == 0xf0 && continues 3 0x90 0xbf s
    then 4
    else if within 0xf1 0xf3 c && continues 3 0x80 0xbf s
    then 4
    else if c == 0xf4 && continues 3 0x80 0x8f s
    then 4
    else 0

-- `skip` bytes of the current rune are still to be passed over.
valid_from : ℕ → Bytes → Bool
unfolding rune_width
valid_from skip [] = true
valid_from (suc skip) (c ∷ s) = valid_from skip s
valid_from zero (c ∷ s) = more (rune_width (c ∷ s)) (valid_from (rest (rune_width (c ∷ s))) s)
  where
    more : ℕ → Bool → Bool
    more zero b = false
    more (suc n) b = b

    rest : ℕ → ℕ
    rest zero = zero
    rest (suc n) = n

-- utf8.ValidString, and utf8.Valid
unfoldable pub valid_string : Bytes → Bool
unfolding valid_from rune_width
valid_string s = valid_from 0 s
