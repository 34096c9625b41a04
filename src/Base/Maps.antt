-- ===== src/Base/Maps.antt =====
-- Go's map[string]V as an association list. Go leaves the order
-- of its entries open.
use Prim.Native.Nat.{suc, ◌≤◌}
use mathlib.Core.Path.{◌≡◌, refl, ap}
use mathlib.Core.Bool.{Bool, true, false, ◌||◌}
use mathlib.Core.Option.{Option, none, some}
use mathlib.Core.List.{List, [], ◌∷◌}
use native.Mathlib.Omega.{arith}
use distributed_p2p_ledger.Base.Tests.{if◌then◌else◌}
use distributed_p2p_ledger.Base.Lists.{length, All}
use distributed_p2p_ledger.Base.ByteStrings.{Bytes, ◌==ₛ◌, ==ₛ_iff}
use distributed_p2p_ledger.Base.Sets.{has, has-nil, Distinct}

abbrev pub Map {ℓ} : Type ℓ → Type ℓ
Map V = List (Bytes × V)

abbrev pub is_some {ℓ} : {A : Type ℓ} → Option A → Bool
is_some none = false
is_some (some a) = true

module _ {ℓ} {V : Type ℓ} where
  -- v, ok := m[k]
  unfoldable pub lookup : Bytes → Map V → Option V
  lookup k [] = none
  lookup k ((j, v) ∷ m) = if j ==ₛ k then some v else lookup k m

  -- m[k] = v
  unfoldable pub insert : Bytes → V → Map V → Map V
  insert k v [] = (k, v) ∷ []
  insert k v ((j, w) ∷ m) = if j ==ₛ k then (j, v) ∷ m else (j, w) ∷ insert k v m

  -- delete(m, k)
  unfoldable pub delete : Bytes → Map V → Map V
  delete k [] = []
  delete k ((j, v) ∷ m) = let rest = delete k m in if j ==ₛ k then rest else (j, v) ∷ rest

  abbrev pub keys : Map V → List Bytes
  keys [] = []
  keys ((k, v) ∷ m) = k ∷ keys m

  abbrev pub values : Map V → List V
  values [] = []
  values ((k, v) ∷ m) = v ∷ values m

  pub has-keys : (k : Bytes) (m : Map V) → has (keys m) k ≡ is_some (lookup k m)
  unfolding has lookup
  has-keys k [] = refl
  has-keys k ((j, v) ∷ m) = ground (arith, has-keys k m)

  pub lookup-insert :
      (k j : Bytes) (v : V) (m : Map V)
      → lookup j (insert k v m) ≡ (if k ==ₛ j then some v else lookup j m)
  unfolding lookup insert
  lookup-insert k j v [] = refl
  lookup-insert k j v ((i, w) ∷ m) =
      ground (arith, ==ₛ_iff k j, ==ₛ_iff i k, ==ₛ_iff i j, lookup-insert k j v m)

  pub lookup-delete :
      (k j : Bytes) (m : Map V) → lookup j (delete k m) ≡ (if k ==ₛ j then none else lookup j m)
  unfolding lookup delete
  lookup-delete k j [] = ground arith
  lookup-delete k j ((i, w) ∷ m) =
      ground (arith, ==ₛ_iff k j, ==ₛ_iff i k, ==ₛ_iff i j, lookup-delete k j m)

  pub has-keys-insert :
      (k j : Bytes) (v : V) (m : Map V)
      → has (keys (insert k v m)) j ≡ ((k ==ₛ j) || has (keys m) j)
  has-keys-insert k j v m =
      ground (arith, has-keys j (insert k v m), has-keys j m, lookup-insert k j v m)

  pub has-keys-delete :
      (k j : Bytes) (m : Map V)
      → has (keys (delete k m)) j ≡ (if k ==ₛ j then false else has (keys m) j)
  has-keys-delete k j m = ground (arith, has-keys j (delete k m), has-keys j m, lookup-delete k j m)

  pub insert-Distinct :
      (k : Bytes) (v : V) (m : Map V) → Distinct (keys m) → Distinct (keys (insert k v m))
  unfolding insert
  insert-Distinct k v [] d = (has-nil k, tt)
  insert-Distinct k v ((j, w) ∷ m) d =
      ground (arith, has-keys-insert k j v m, insert-Distinct k v m d.1, ==ₛ_iff k j, ==ₛ_iff j k)

  pub delete-Distinct : (k : Bytes) (m : Map V) → Distinct (keys m) → Distinct (keys (delete k m))
  unfolding delete
  delete-Distinct k [] d = tt
  delete-Distinct k ((j, w) ∷ m) d = ground (arith, has-keys-delete k j m, delete-Distinct k m d.1)

  pub length-insert :
      (k : Bytes) (v : V) (m : Map V)
      → length (insert k v m) ≡ (if has (keys m) k then length m else suc (length m))
  unfolding insert has
  length-insert k v [] = refl
  length-insert k v ((j, w) ∷ m) = ground (arith, length-insert k v m)

  pub length-delete-le : (k : Bytes) (m : Map V) → length (delete k m) ≤ length m
  unfolding delete
  length-delete-le k [] = omega arith
  length-delete-le k ((j, w) ∷ m) = ground (arith, length-delete-le k m)

  pub insert-All {κ} :
      (P : Bytes × V → Type κ) (k : Bytes) (v : V) (m : Map V)
      → P (k, v)
      → All P m
      → All P (insert k v m)
  unfolding insert
  insert-All P k v [] p h = (p, tt)
  insert-All P k v ((j, w) ∷ m) p h = ground (arith, ==ₛ_iff j k, insert-All P k v m p h.1)

  pub delete-All {κ} :
      (P : Bytes × V → Type κ) (k : Bytes) (m : Map V) → All P m → All P (delete k m)
  unfolding delete
  delete-All P k [] h = tt
  delete-All P k ((j, w) ∷ m) h = ground (arith, delete-All P k m h.1)

  pub length-keys : (m : Map V) → length (keys m) ≡ length m
  length-keys [] = refl
  length-keys ((k, v) ∷ m) = ap suc (length-keys m)

  pub length-values : (m : Map V) → length (values m) ≡ length m
  length-values [] = refl
  length-values ((k, v) ∷ m) = ap suc (length-values m)
