-- ===== src/Text/Atoi.antt =====
-- strconv.Atoi, on a 64-bit machine.
use distributed_p2p_ledger.Base.{
  ℕ, ◌+◌, ◌-◌, ◌*◌, ◌^◌, ◌≡◌, refl, ◌||◌, [], ◌∷◌, Bytes, codes, ltb, leb, ◌==◌, if◌then◌else◌, ℤ,
  pos, negsuc, Option, none, some,
}

-- The value of decimal digits behind `n`.
unfoldable pub digits_from : ℕ → Bytes → Option ℕ
digits_from n [] = some n
digits_from n (c ∷ s) =
    let rest = digits_from (n * 10 + (c - b'0')) s in
    if ltb c b'0' || ltb b'9' c then none else rest

-- One digit at least.
unfoldable pub parse_digits : Bytes → Option ℕ
parse_digits [] = none
parse_digits (c ∷ s) = digits_from 0 (c ∷ s)

-- -n, where there is one in 64 bits.
negative : ℕ → Option ℤ
negative n = if n == 0 then some (pos 0) else if leb n (2 ^ 63) then some (negsuc (n - 1)) else none

positive : ℕ → Option ℤ
positive n = if ltb n (2 ^ 63) then some (pos n) else none

unsigned : (ℕ → Option ℤ) → Option ℕ → Option ℤ
unsigned sign none = none
unsigned sign (some n) = sign n

unfoldable pub atoi : Bytes → Option ℤ
unfolding parse_digits negative positive unsigned
atoi [] = none
atoi (c ∷ s) =
    if c == b'-'
    then unsigned negative (parse_digits s)
    else unsigned positive (parse_digits (if c == b'+' then s else c ∷ s))

signs : (atoi (codes "-42") ≡ some (negsuc 41)) × (atoi (codes "+7") ≡ some (pos 7))
unfolding atoi digits_from
signs = (refl, refl)

refusals : (atoi (codes "1_0") ≡ none) × (atoi (codes "-") ≡ none)
unfolding atoi digits_from
refusals = (refl, refl)

limits :
    (atoi (codes "9223372036854775807") ≡ some (pos (2 ^ 63 - 1)))
    × (atoi (codes "9223372036854775808") ≡ none)
    × (atoi (codes "-9223372036854775808") ≡ some (negsuc (2 ^ 63 - 1)))
unfolding atoi digits_from
limits = (refl, refl, refl)
