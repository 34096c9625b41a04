-- ===== src/Base/ByteStrings.antt =====
-- Go's strings are byte sequences: equality, order, prefixes, and sets of strings.
use Prim.Native.Nat.{ℕ}
use Prim.Native.Char.{code}
use Prim.Native.String.{String}
use mathlib.Core.Path.{◌≡◌, refl}
use mathlib.Core.Logic.{◌↔◌}
use mathlib.Core.Bool.{Bool, true, false, ◌&&◌, ◌||◌}
use mathlib.Core.List.{List, [], ◌∷◌}
use native.Mathlib.Omega.{arith}
use distributed_p2p_ledger.Base.Tests.{ltb, ◌==◌}

abbrev pub Bytes : Type 0
Bytes = List ℕ

-- An ASCII text as bytes.
abbrev pub codes : String → Bytes
codes String.[] = []
codes (String.◌∷◌ c s) = code c ∷ codes s

infix 50 ◌==ₛ◌
unfoldable pub ◌==ₛ◌ : Bytes → Bytes → Bool
[] ==ₛ [] = true
[] ==ₛ (y ∷ t) = false
(x ∷ s) ==ₛ [] = false
(x ∷ s) ==ₛ (y ∷ t) = (x == y) && (s ==ₛ t)

-- `s < t` on strings: the first byte that differs decides, and a proper prefix is smaller.
unfoldable pub ltb_ₛ : Bytes → Bytes → Bool
ltb_ₛ [] [] = false
ltb_ₛ [] (y ∷ t) = true
ltb_ₛ (x ∷ s) [] = false
ltb_ₛ (x ∷ s) (y ∷ t) = ltb x y || ((x == y) && ltb_ₛ s t)

-- strings.HasPrefix
unfoldable pub has_prefix : Bytes → Bytes → Bool
has_prefix s [] = true
has_prefix [] (y ∷ p) = false
has_prefix (x ∷ s) (y ∷ p) = (x == y) && has_prefix s p

pub ==ₛ_refl : (s : Bytes) → (s ==ₛ s) ≡ true
unfolding ◌==ₛ◌
==ₛ_refl [] = refl
==ₛ_refl (x ∷ s) = ground (arith, ==ₛ_refl s)

pub eq_of_==ₛ : (s t : Bytes) → (s ==ₛ t) ≡ true → s ≡ t
unfolding ◌==ₛ◌
eq_of_==ₛ [] [] h = refl
eq_of_==ₛ [] (y ∷ t) h = absurd (ground arith)
eq_of_==ₛ (x ∷ s) [] h = absurd (ground arith)
eq_of_==ₛ (x ∷ s) (y ∷ t) h = ground (arith, eq_of_==ₛ s t)

pub ==ₛ_iff : (s t : Bytes) → ((s ==ₛ t) ≡ true) ↔ (s ≡ t)
==ₛ_iff s t = (eq_of_==ₛ s t, λ e. rw e (==ₛ_refl t))

pub ltb_ₛ_irrefl : (s : Bytes) → ltb_ₛ s s ≡ false
unfolding ltb_ₛ
ltb_ₛ_irrefl [] = refl
ltb_ₛ_irrefl (x ∷ s) = ground (arith, ltb_ₛ_irrefl s)

pub ltb_ₛ_trans : (s t u : Bytes) → ltb_ₛ s t ≡ true → ltb_ₛ t u ≡ true → ltb_ₛ s u ≡ true
unfolding ltb_ₛ
ltb_ₛ_trans [] [] u h k = absurd (ground arith)
ltb_ₛ_trans [] (y ∷ t) [] h k = absurd (ground arith)
ltb_ₛ_trans [] (y ∷ t) (z ∷ u) h k = refl
ltb_ₛ_trans (x ∷ s) [] u h k = absurd (ground arith)
ltb_ₛ_trans (x ∷ s) (y ∷ t) [] h k = absurd (ground arith)
ltb_ₛ_trans (x ∷ s) (y ∷ t) (z ∷ u) h k = ground (arith, ltb_ₛ_trans s t u)

pub ltb_ₛ_total : (s t : Bytes) → ltb_ₛ s t ≡ false → ltb_ₛ t s ≡ false → s ≡ t
unfolding ltb_ₛ
ltb_ₛ_total [] [] h k = refl
ltb_ₛ_total [] (y ∷ t) h k = absurd (ground arith)
ltb_ₛ_total (x ∷ s) [] h k = absurd (ground arith)
ltb_ₛ_total (x ∷ s) (y ∷ t) h k = ground (arith, ltb_ₛ_total s t)
