-- ===== src/Mempool/Replace.antt =====
-- What `Replace` leaves in the pool.
use distributed_p2p_ledger.Base.{
  ◌+◌, ◌≤◌, ◌≡◌, refl, ◌||◌, List, [], ◌∷◌, Bytes, length, arith, All, Distinct, has, has-nil, Map,
  insert, keys, has-keys-insert, insert-Distinct, insert-All, length-insert,
}
use distributed_p2p_ledger.Models.Transaction.{Transaction, tx_ids, IsValidTransaction}
use distributed_p2p_ledger.Mempool.{Mempool, max_pending, put_all, replace}
use distributed_p2p_ledger.Mempool.Invariant.{IsOwn, IsValidPool, pending_ids}

put_all-All :
    (txs : Map Transaction) (rest : List Transaction)
    → All IsOwn txs
    → All IsValidTransaction rest
    → All IsOwn (put_all txs rest)
unfolding put_all
put_all-All txs [] own valid = own
put_all-All txs (tx ∷ rest) own valid =
    put_all-All (insert tx.id tx txs) rest
      (insert-All IsOwn tx.id tx txs (record { key = refl; valid = valid.0 }) own) valid.1

put_all-Distinct :
    (txs : Map Transaction) (rest : List Transaction)
    → Distinct (keys txs)
    → Distinct (keys (put_all txs rest))
unfolding put_all
put_all-Distinct txs [] d = d
put_all-Distinct txs (tx ∷ rest) d =
    put_all-Distinct (insert tx.id tx txs) rest (insert-Distinct tx.id tx txs d)

length-put_all-le :
    (txs : Map Transaction) (rest : List Transaction)
    → length (put_all txs rest) ≤ length txs + length rest
unfolding put_all
length-put_all-le txs [] = omega arith
length-put_all-le txs (tx ∷ rest) =
    ground (arith, length-put_all-le (insert tx.id tx txs) rest, length-insert tx.id tx txs)

has-put_all :
    (txs : Map Transaction) (rest : List Transaction) (k : Bytes)
    → has (keys (put_all txs rest)) k ≡ (has (keys txs) k || has (tx_ids rest) k)
unfolding put_all has
has-put_all txs [] k = ground arith
has-put_all txs (tx ∷ rest) k =
    ground (arith, has-put_all (insert tx.id tx txs) rest k, has-keys-insert tx.id k tx txs)

-- `Replace` keeps the invariant, if it is given valid transactions that fit.
pub replace-IsValidPool :
    (txs : List Transaction) (m : Mempool)
    → All IsValidTransaction txs
    → length txs ≤ max_pending
    → IsValidPool (replace txs m)
unfolding replace
replace-IsValidPool txs m valid short = record {
  distinct = put_all-Distinct [] txs tt;
  own = put_all-All [] txs tt valid;
  bounded = omega (arith, length-put_all-le [] txs);
}

-- After `Replace` exactly the given transactions are pending.
pub pending_ids-replace :
    (txs : List Transaction) (m : Mempool) (k : Bytes)
    → has (pending_ids (replace txs m)) k ≡ has (tx_ids txs) k
unfolding replace
pending_ids-replace txs m k = ground (arith, has-put_all [] txs k, has-nil k)
