-- ===== src/Mempool/Reorg.antt =====
-- `PrepareReorg`: which transactions are pending after a change of chain.
use distributed_p2p_ledger.Base.{
  ◌≤◌, ◌<◌, ◌≡◌, refl, Bool, Bool-cases, not, ◌||◌, ◌&&◌, List, [], ◌∷◌, Bytes, length, arith, All,
  Distinct, has, Option, none, if◌then◌else◌, lookup, has-append, has-nil, ==ₛ_iff, Map, insert,
  keys, values, has-keys-insert, insert-Distinct, insert-All, length-keys, elements, ok, err, full,
  inl, inr,
}
use distributed_p2p_ledger.Models.Transaction.{Transaction, tx_ids, IsValidTransaction}
use distributed_p2p_ledger.Models.Block.{Block, ids}
use distributed_p2p_ledger.Models.Chain.{chain_ids}
use distributed_p2p_ledger.Mempool.{
  Mempool, max_pending, get_pending, confirm_transactions, confirm_blocks, keep_transactions,
  keep_blocks, prepare_reorg,
}
use distributed_p2p_ledger.Mempool.Invariant.{IsOwn, IsValidPool, pending_ids}
use distributed_p2p_ledger.Mempool.Latest.{latest, block_transactions, latest-values, lookup-kept}
use distributed_p2p_ledger.Mempool.Sorted.{
  tx_ids-values, values-All, has-get_pending, get_pending-All,
}

has-confirm_transactions :
    (c : List Bytes) (txs : List Transaction) (k : Bytes)
    → has (confirm_transactions c txs) k ≡ (has (tx_ids txs) k || has c k)
unfolding confirm_transactions has
has-confirm_transactions c [] k = refl
has-confirm_transactions c (tx ∷ txs) k = ground (arith, has-confirm_transactions (tx.id ∷ c) txs k)

has-confirm_blocks :
    (c : List Bytes) (chain : List Block) (k : Bytes)
    → has (confirm_blocks c chain) k ≡ (has (chain_ids chain) k || has c k)
unfolding confirm_blocks has
has-confirm_blocks c [] k = refl
has-confirm_blocks c (b ∷ chain) k = ground (
  arith,
  has-confirm_blocks (confirm_transactions c (elements b.transactions)) chain k,
  has-confirm_transactions c (elements b.transactions) k,
  has-append (ids b) (chain_ids chain) k,
)

-- Every transaction of every block of the list is valid.
abbrev pub HasValidTransactions : List Block → Type 0
HasValidTransactions = All (λ (b : Block). All IsValidTransaction (elements b.transactions))

module _ (c : List Bytes) where
  has-keep_transactions :
      (next : Map Transaction) (txs : List Transaction) (k : Bytes)
      → has (keys (keep_transactions c next txs)) k
        ≡ (has (keys next) k || has (tx_ids txs) k && not (has c k))
  unfolding keep_transactions has
  has-keep_transactions next [] k = ground arith
  has-keep_transactions next (tx ∷ txs) k = elim (Bool-cases (has c tx.id)) [
    | inl e ↦ rw e (ground (arith, has-keep_transactions next txs k, ==ₛ_iff tx.id k))
    | inr e ↦ rw e (
        ground (
          arith,
          has-keep_transactions (insert tx.id tx next) txs k,
          has-keys-insert tx.id k tx next,
          ==ₛ_iff tx.id k,
        ))
  ]

  keep_transactions-Distinct :
      (next : Map Transaction) (txs : List Transaction)
      → Distinct (keys next)
      → Distinct (keys (keep_transactions c next txs))
  unfolding keep_transactions
  keep_transactions-Distinct next [] d = d
  keep_transactions-Distinct next (tx ∷ txs) d = elim (Bool-cases (has c tx.id)) [
    | inl e ↦ rw e (keep_transactions-Distinct next txs d)
    | inr e ↦
        rw e
          (keep_transactions-Distinct (insert tx.id tx next) txs (insert-Distinct tx.id tx next d))
  ]

  keep_transactions-All :
      (next : Map Transaction) (txs : List Transaction)
      → All IsOwn next
      → All IsValidTransaction txs
      → All IsOwn (keep_transactions c next txs)
  unfolding keep_transactions
  keep_transactions-All next [] own valid = own
  keep_transactions-All next (tx ∷ txs) own valid = elim (Bool-cases (has c tx.id)) [
    | inl e ↦ rw e (keep_transactions-All next txs own valid.1)
    | inr e ↦ rw e (
        keep_transactions-All (insert tx.id tx next) txs
          (insert-All IsOwn tx.id tx next (record { key = refl; valid = valid.0 }) own) valid.1)
  ]

  has-keep_blocks :
      (next : Map Transaction) (chain : List Block) (k : Bytes)
      → has (keys (keep_blocks c next chain)) k
        ≡ (has (keys next) k || has (chain_ids chain) k && not (has c k))
  unfolding keep_blocks
  has-keep_blocks next [] k = ground (arith, has-nil k)
  has-keep_blocks next (b ∷ chain) k = ground (
    arith,
    has-keep_blocks (keep_transactions c next (elements b.transactions)) chain k,
    has-keep_transactions next (elements b.transactions) k,
    has-append (ids b) (chain_ids chain) k,
  )

  keep_blocks-Distinct :
      (next : Map Transaction) (chain : List Block)
      → Distinct (keys next)
      → Distinct (keys (keep_blocks c next chain))
  unfolding keep_blocks
  keep_blocks-Distinct next [] d = d
  keep_blocks-Distinct next (b ∷ chain) d =
      keep_blocks-Distinct (keep_transactions c next (elements b.transactions)) chain
        (keep_transactions-Distinct next (elements b.transactions) d)

  keep_blocks-All :
      (next : Map Transaction) (chain : List Block)
      → All IsOwn next
      → HasValidTransactions chain
      → All IsOwn (keep_blocks c next chain)
  unfolding keep_blocks
  keep_blocks-All next [] own valid = own
  keep_blocks-All next (b ∷ chain) own valid =
      keep_blocks-All (keep_transactions c next (elements b.transactions)) chain
        (keep_transactions-All next (elements b.transactions) own valid.0) valid.1

-- What must be pending after a reorganisation: an ID of the pool or of the old chain that the new
-- chain does not confirm.
abbrev pub pends : List Block → List Block → Mempool → Bytes → Bool
pends old new_chain m k =
    (has (pending_ids m) k || has (chain_ids old) k) && not (has (chain_ids new_chain) k)

-- The transaction that must be pending under an ID: none if the new chain confirms it; else the last one
-- of the old chain with this ID, or, if there is none, that of the pool.
abbrev pub pending_under : List Block → List Block → Mempool → Bytes → Option Transaction
pending_under old new_chain m k =
    if has (chain_ids new_chain) k
    then none
    else latest k (lookup k m.transactions) (block_transactions old)

-- The result of the preparation, on both branches, for the IDs `next` that must be pending.
pub record Prepared (old new_chain : List Block) (m : Mempool) (next : List Bytes) : Type 0 where
  pub distinct : Distinct next
  pub exact : (k : Bytes) → has next k ≡ pends old new_chain m k
  pub refused : max_pending < length next → prepare_reorg old new_chain m ≡ err full
  pub accepted :
      length next ≤ max_pending
      → (out : List Transaction) × (prepare_reorg old new_chain m ≡ ok out)
        × (tx_ids out ≡ next)
        × ((k : Bytes) → latest k none out ≡ pending_under old new_chain m k)
        × All IsValidTransaction out

-- On a valid pool and an old chain whose transactions are valid, `PrepareReorg` returns the
-- transactions that must be pending, each ID once and all valid: for an ID of the pool or of the
-- old chain that the new chain does not confirm, the last transaction that the old chain has with
-- it, or else that of the pool, and nothing for any other ID; unless there are more of these IDs
-- than the pool holds, when it fails with `full`.
pub prepare_reorg_lem :
    (old new_chain : List Block) (m : Mempool)
    → IsValidPool m
    → HasValidTransactions old
    → (next : List Bytes) × Prepared old new_chain m next
unfolding prepare_reorg
prepare_reorg_lem old new_chain m v valid =
    let c = confirm_blocks [] new_chain in
    let pending = keep_transactions c [] (get_pending m) in
    let next = keep_blocks c pending old in
    let distinct : Distinct (keys next) =
      keep_blocks-Distinct c pending old (keep_transactions-Distinct c [] (get_pending m) tt) in
    let own : All IsOwn next =
      keep_blocks-All c pending old
        (keep_transactions-All c [] (get_pending m) tt (get_pending-All m v)) valid in
    (
      keys next,
      record {
        distinct = distinct;
        exact = λ k. ground (
          arith,
          has-keep_blocks c pending old k,
          has-keep_transactions c [] (get_pending m) k,
          has-get_pending m v k,
          has-confirm_blocks [] new_chain k,
          has-nil k,
        );
        refused = λ h. ground (arith, length-keys next);
        accepted = λ h. (
          values next,
          ground (arith, length-keys next),
          tx_ids-values next own,
          λ k. ground (
            arith,
            latest-values k next own distinct,
            lookup-kept k c m old v,
            has-confirm_blocks [] new_chain k,
            has-nil k,
          ),
          values-All next own,
        );
      },
    )
