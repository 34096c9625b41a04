-- ===== src/Base/Slices.antt =====
-- Go's slices as values: a nil slice and an empty one differ in JSON and under reflect.DeepEqual.
use Prim.Native.Nat.{ℕ}
use mathlib.Core.List.{List, []}
use distributed_p2p_ledger.Base.Lists.{length}

pub data Slice {ℓ} (A : Type ℓ) : Type ℓ where
  nil_slice : Slice A
  slice : List A → Slice A

module _ {ℓ} {A : Type ℓ} where
  -- What `range`, `len` and indexing see.
  abbrev pub elements : Slice A → List A
  elements nil_slice = []
  elements (slice xs) = xs

  abbrev pub len_slice : Slice A → ℕ
  len_slice s = length (elements s)

  -- append([]T{}, s...): a copy that is never nil
  abbrev pub clone_slice : Slice A → Slice A
  clone_slice s = slice (elements s)
