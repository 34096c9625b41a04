-- ===== src/Base/Sets.antt =====
-- Finite sets of strings as lists: membership, lists that share no element, lists without repeats.
use mathlib.Core.Path.{◌≡◌, refl, ◌∙◌}
use mathlib.Core.Logic.{◌↔◌}
use mathlib.Core.Bool.{Bool, true, false, ◌||◌}
use mathlib.Core.List.{List, [], ◌∷◌, ◌++◌}
use native.Mathlib.Omega.{arith}
use distributed_p2p_ledger.Base.ByteStrings.{Bytes, ◌==ₛ◌, ==ₛ_refl, eq_of_==ₛ, ==ₛ_iff}

-- A key of a map[string]bool that is set to true.
unfoldable pub has : List Bytes → Bytes → Bool
has [] k = false
has (x ∷ xs) k = (x ==ₛ k) || has xs k

-- No string twice.
abbrev pub Distinct : List Bytes → Type 0
Distinct [] = Unit
Distinct (x ∷ xs) = (has xs x ≡ false) × Distinct xs

-- No string of the first list is in the second.
abbrev pub Apart : List Bytes → List Bytes → Type 0
Apart [] ys = Unit
Apart (x ∷ xs) ys = (has ys x ≡ false) × Apart xs ys

pub has-append : (xs ys : List Bytes) (k : Bytes) → has (xs ++ ys) k ≡ (has xs k || has ys k)
unfolding has
has-append [] ys k = refl
has-append (x ∷ xs) ys k = ground (arith, has-append xs ys k)

pub has-cons : (x : Bytes) (xs : List Bytes) (k : Bytes) → has (x ∷ xs) k ≡ ((x ==ₛ k) || has xs k)
unfolding has
has-cons x xs k = refl

pub has-nil : (k : Bytes) → has [] k ≡ false
unfolding has
has-nil k = refl

pub ==ₛ_comm : (s t : Bytes) → (s ==ₛ t) ≡ (t ==ₛ s)
==ₛ_comm s t = ground (arith, ==ₛ_iff s t, ==ₛ_iff t s)

pub Apart-nil_right : (xs : List Bytes) → Apart xs []
Apart-nil_right [] = tt
Apart-nil_right (x ∷ xs) = (has-nil x, Apart-nil_right xs)

pub Apart-cons_right :
    (xs : List Bytes) (y : Bytes) (ys : List Bytes)
    → Apart xs (y ∷ ys) ↔ ((has xs y ≡ false) × Apart xs ys)
unfolding has
Apart-cons_right [] y ys = (λ h. (refl, tt), λ h. tt)
Apart-cons_right (x ∷ xs) y ys =
    let ih = Apart-cons_right xs y ys in
    (
      λ h. ground (arith, ==ₛ_comm x y, ih.0 h.1),
      λ h. (ground (arith, ==ₛ_comm x y), ih.1 (ground arith)),
    )

pub Apart-ext :
    (xs ys zs : List Bytes) → ((k : Bytes) → has zs k ≡ has ys k) → Apart xs ys → Apart xs zs
Apart-ext [] ys zs e h = tt
Apart-ext (x ∷ xs) ys zs e h = (e x ∙ h.0, Apart-ext xs ys zs e h.1)

pub Apart-append_right : (xs ys zs : List Bytes) → Apart xs (ys ++ zs) ↔ (Apart xs ys × Apart xs zs)
Apart-append_right [] ys zs = (λ h. (tt, tt), λ h. tt)
Apart-append_right (x ∷ xs) ys zs =
    let ih = Apart-append_right xs ys zs in
    (
      λ h. ground (arith, has-append ys zs x, ih.0 h.1),
      λ h. (ground (arith, has-append ys zs x), ih.1 (h.0.1, h.1.1)),
    )

pub Apart-append_left : (xs ys zs : List Bytes) → Apart (xs ++ ys) zs ↔ (Apart xs zs × Apart ys zs)
Apart-append_left [] ys zs = (λ h. (tt, h), λ h. h.1)
Apart-append_left (x ∷ xs) ys zs =
    let ih = Apart-append_left xs ys zs in
    (λ h. ((h.0, (ih.0 h.1).0), (ih.0 h.1).1), λ h. (h.0.0, ih.1 (h.0.1, h.1)))

pub Apart-symm : (xs ys : List Bytes) → Apart xs ys → Apart ys xs
Apart-symm [] ys h = Apart-nil_right ys
Apart-symm (x ∷ xs) ys h = (Apart-cons_right ys x xs).1 (h.0, Apart-symm xs ys h.1)

pub Distinct-append :
    (xs ys : List Bytes) → Distinct (xs ++ ys) ↔ (Distinct xs × Distinct ys × Apart xs ys)
Distinct-append [] ys = (λ h. (tt, h, tt), λ h. h.1)
Distinct-append (x ∷ xs) ys =
    let ih = Distinct-append xs ys in
    (
      λ h. ground (arith, has-append xs ys x, ih.0 h.1),
      λ h. (ground (arith, has-append xs ys x), ih.1 (h.0.1, h.1, h.2.1)),
    )

-- A string of the first list is not in the second.
pub Apart-has : (xs ys : List Bytes) (k : Bytes) → Apart xs ys → has xs k ≡ true → has ys k ≡ false
unfolding has
Apart-has [] ys k h m = absurd (ground arith)
Apart-has (x ∷ xs) ys k h m = ground (arith, eq_of_==ₛ x k, Apart-has xs ys k h.1)

pub Apart-of :
    (xs ys : List Bytes) → ((k : Bytes) → has xs k ≡ true → has ys k ≡ false) → Apart xs ys
unfolding has
Apart-of [] ys f = tt
Apart-of (x ∷ xs) ys f =
    (f x (ground (arith, ==ₛ_refl x)), Apart-of xs ys (λ k m. f k (ground arith)))
