-- ===== src/Mempool/Latest.antt =====
-- The transaction that an ID stands for, in a list, in the pool and after the loops of `PrepareReorg`.
use distributed_p2p_ledger.Base.{
  ◌≡◌, refl, ◌∙◌, inl, inr, Bool-cases, false, List, [], ◌∷◌, ◌++◌, Bytes, arith, All, Distinct,
  has, has-cons, ◌==ₛ◌, ==ₛ_iff, Option, none, some, if◌then◌else◌, Map, lookup, insert, keys,
  values, lookup-insert, elements,
}
use distributed_p2p_ledger.Models.Transaction.{Transaction, tx_ids}
use distributed_p2p_ledger.Models.Block.{Block}
use distributed_p2p_ledger.Mempool.{
  Mempool, insert_by_id, sort_by_id, get_pending, keep_transactions, keep_blocks,
}
use distributed_p2p_ledger.Mempool.Invariant.{IsOwn, IsValidPool}
use distributed_p2p_ledger.Mempool.Sorted.{has-sort_by_id, tx_ids-values}

-- The last transaction of the list with the ID `k`, and `found` if there is none.
unfoldable pub latest : Bytes → Option Transaction → List Transaction → Option Transaction
latest k found [] = found
latest k found (tx ∷ txs) = latest k (if tx.id ==ₛ k then some tx else found) txs

-- The transactions of all blocks, in order.
abbrev pub block_transactions : List Block → List Transaction
block_transactions [] = []
block_transactions (b ∷ chain) = elements b.transactions ++ block_transactions chain

module _ (k : Bytes) where
  latest-append :
      (found : Option Transaction) (xs ys : List Transaction)
      → latest k found (xs ++ ys) ≡ latest k (latest k found xs) ys
  unfolding latest
  latest-append found [] ys = refl
  latest-append found (x ∷ xs) ys = latest-append (if x.id ==ₛ k then some x else found) xs ys

  pub latest-absent :
      (found : Option Transaction) (txs : List Transaction)
      → has (tx_ids txs) k ≡ false
      → latest k found txs ≡ found
  unfolding latest
  latest-absent found [] h = refl
  latest-absent found (tx ∷ txs) h =
      ground (arith, has-cons tx.id (tx_ids txs) k, latest-absent found txs)

  latest-insert_by_id :
      (found : Option Transaction) (tx : Transaction) (xs : List Transaction)
      → has (tx_ids xs) tx.id ≡ false
      → latest k found (insert_by_id tx xs) ≡ latest k found (tx ∷ xs)
  unfolding latest insert_by_id
  latest-insert_by_id found tx [] new = refl
  latest-insert_by_id found tx (x ∷ xs) new = ground (
    arith,
    has-cons x.id (tx_ids xs) tx.id,
    ==ₛ_iff x.id k,
    ==ₛ_iff tx.id k,
    ==ₛ_iff x.id tx.id,
    latest-insert_by_id found tx xs,
    latest-insert_by_id (some x) tx xs,
  )

  latest-sort_by_id :
      (found : Option Transaction) (xs : List Transaction)
      → Distinct (tx_ids xs)
      → latest k found (sort_by_id xs) ≡ latest k found xs
  unfolding latest sort_by_id
  latest-sort_by_id found [] d = refl
  latest-sort_by_id found (x ∷ xs) d =
      latest-insert_by_id found x (sort_by_id xs) (has-sort_by_id xs x.id ∙ d.0)
      ∙ latest-sort_by_id (if x.id ==ₛ k then some x else found) xs d.1

  pub latest-values :
      (m : Map Transaction)
      → All IsOwn m
      → Distinct (keys m)
      → latest k none (values m) ≡ lookup k m
  unfolding latest lookup
  latest-values [] own d = refl
  latest-values ((j, v) ∷ m) own d = elim (Bool-cases (j ==ₛ k)) [
    | inl same ↦ ground (
      arith,
      IsOwn.key own.0,
      latest-absent (some v) (values m),
      tx_ids-values m own.1,
      (==ₛ_iff j k).0 same,
    )
    | inr other ↦ ground (arith, IsOwn.key own.0, latest-values m own.1 d.1)
  ]

  module _ (c : List Bytes) where
    lookup-keep_transactions :
        (next : Map Transaction) (txs : List Transaction)
        → lookup k (keep_transactions c next txs)
          ≡ (if has c k then lookup k next else latest k (lookup k next) txs)
    unfolding keep_transactions latest
    lookup-keep_transactions next [] = ground arith
    lookup-keep_transactions next (tx ∷ txs) = elim (Bool-cases (has c tx.id)) [
      | inl confirmed ↦
          rw confirmed (ground (arith, lookup-keep_transactions next txs, ==ₛ_iff tx.id k))
      | inr free ↦ rw free (
          ground (
            arith,
            lookup-keep_transactions (insert tx.id tx next) txs,
            lookup-insert tx.id k tx next,
            ==ₛ_iff tx.id k,
          ))
    ]

    lookup-keep_blocks :
        (next : Map Transaction) (chain : List Block)
        → lookup k (keep_blocks c next chain)
          ≡ (if has c k then lookup k next else latest k (lookup k next) (block_transactions chain))
    unfolding keep_blocks latest
    lookup-keep_blocks next [] = ground arith
    lookup-keep_blocks next (b ∷ chain) = ground (
      arith,
      lookup-keep_blocks (keep_transactions c next (elements b.transactions)) chain,
      lookup-keep_transactions next (elements b.transactions),
      latest-append (lookup k next) (elements b.transactions) (block_transactions chain),
    )

  pub latest-get_pending :
      (m : Mempool) → IsValidPool m → latest k none (get_pending m) ≡ lookup k m.transactions
  unfolding get_pending
  latest-get_pending m v =
      latest-sort_by_id none (values m.transactions)
        (rw (tx_ids-values m.transactions v.own) v.distinct)
      ∙ latest-values m.transactions v.own v.distinct

  -- What the loops over pool and old chain leave under the ID: nothing if it is confirmed; else the old
  -- chain's last transaction, or that of the pool.
  pub lookup-kept :
      (c : List Bytes) (m : Mempool) (old : List Block)
      → IsValidPool m
      → lookup k (keep_blocks c (keep_transactions c [] (get_pending m)) old)
        ≡ (if has c k then none else latest k (lookup k m.transactions) (block_transactions old))
  unfolding lookup
  lookup-kept c m old v = ground (
    arith,
    lookup-keep_blocks c (keep_transactions c [] (get_pending m)) old,
    lookup-keep_transactions c [] (get_pending m),
    latest-get_pending m v,
  )
