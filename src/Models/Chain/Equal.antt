-- ===== src/Models/Chain/Equal.antt =====
-- reflect.DeepEqual on blocks.
use distributed_p2p_ledger.Base.{
  ◌≡◌, ◌↔◌, refl, ap, true, List, [], ◌∷◌, ==ₛ_iff, arith, ==ℤ_iff, Slice, nil_slice, slice,
}
use distributed_p2p_ledger.Models.Transaction.{Transaction, same_transaction_iff}
use distributed_p2p_ledger.Models.Block.{Block}
use distributed_p2p_ledger.Models.Chain.{same_transactions, same_slices, deep_equal}

same_transactions_iff : (xs ys : List Transaction) → (same_transactions xs ys ≡ true) ↔ (xs ≡ ys)
unfolding same_transactions
same_transactions_iff [] [] = (λ h. refl, λ h. refl)
same_transactions_iff [] (y ∷ ys) = (λ h. ground arith, λ h. ground arith)
same_transactions_iff (x ∷ xs) [] = (λ h. ground arith, λ h. ground arith)
same_transactions_iff (x ∷ xs) (y ∷ ys) = (
  λ h. ground (arith, same_transaction_iff x y, same_transactions_iff xs ys),
  λ h. ground (arith, same_transaction_iff x y, same_transactions_iff xs ys),
)

same_slices_iff : (s t : Slice Transaction) → (same_slices s t ≡ true) ↔ (s ≡ t)
unfolding same_slices
same_slices_iff nil_slice nil_slice = (λ h. refl, λ h. refl)
same_slices_iff (slice xs) (slice ys) = (
  λ h. ap slice ((same_transactions_iff xs ys).0 h),
  λ h. ground (arith, same_transactions_iff xs ys),
)
same_slices_iff nil_slice (slice ys) = (λ h. ground arith, λ h. ground arith)
same_slices_iff (slice xs) nil_slice = (λ h. ground arith, λ h. ground arith)

module _ (a b : Block) where
  deep_equal-eq : deep_equal a b ≡ true → a ≡ b
  unfolding deep_equal
  deep_equal-eq h = ground (
    arith,
    ==ℤ_iff a.version b.version,
    ==ℤ_iff a.difficulty b.difficulty,
    ==ℤ_iff a.index b.index,
    ==ℤ_iff a.timestamp b.timestamp,
    same_slices_iff a.transactions b.transactions,
    ==ₛ_iff a.prev_hash b.prev_hash,
    ==ₛ_iff a.hash b.hash,
  )

deep_equal_refl : (b : Block) → deep_equal b b ≡ true
unfolding deep_equal
deep_equal_refl b = ground (
  arith,
  ==ℤ_iff b.version b.version,
  ==ℤ_iff b.difficulty b.difficulty,
  ==ℤ_iff b.index b.index,
  ==ℤ_iff b.timestamp b.timestamp,
  same_slices_iff b.transactions b.transactions,
  ==ₛ_iff b.prev_hash b.prev_hash,
  ==ₛ_iff b.hash b.hash,
)

-- Two blocks compare equal exactly if they are the same, a nil slice of transactions being other
-- than an empty one.
pub deep_equal_iff : (a b : Block) → (deep_equal a b ≡ true) ↔ (a ≡ b)
deep_equal_iff a b = (deep_equal-eq a b, λ e. rw e (deep_equal_refl b))
