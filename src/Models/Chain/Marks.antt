-- ===== src/Models/Chain/Marks.antt =====
-- The scan for transaction IDs that repeat.
use distributed_p2p_ledger.Base.{
  ◌≡◌, refl, List, [], ◌∷◌, ◌++◌, Bytes, Distinct, Apart, Apart-cons_right, has, has-cons,
  has-append, arith, ok,
}
use distributed_p2p_ledger.Models.Transaction.{Transaction, tx_ids}
use distributed_p2p_ledger.Models.Chain.{mark_transactions}

-- The scan of one block succeeds exactly if none of its IDs repeats or was seen.
pub mark_transactions-ok :
    (seen : List Bytes) (txs : List Transaction) {seen' : List Bytes}
    → mark_transactions seen txs ≡ ok seen'
    → Distinct (tx_ids txs)
      × Apart (tx_ids txs) seen
      × ((k : Bytes) → has seen' k ≡ has (tx_ids txs ++ seen) k)
unfolding mark_transactions
mark_transactions-ok seen [] h = (tt, tt, λ k. ground arith)
mark_transactions-ok seen (tx ∷ txs) {seen'} h =
    let (distinct, apart, marks) =
      mark_transactions-ok (tx.id ∷ seen) txs {seen' = seen'} (ground arith) in
    let fresh = (Apart-cons_right (tx_ids txs) tx.id seen).0 apart in
    (
      (fresh.0, distinct),
      (ground arith, fresh.1),
      λ k. ground (
        arith,
        marks k,
        has-append (tx_ids txs) (tx.id ∷ seen) k,
        has-append (tx_ids txs) seen k,
        has-cons tx.id seen k,
        has-cons tx.id (tx_ids txs ++ seen) k,
      ),
    )

pub mark_transactions-fresh :
    (seen : List Bytes) (txs : List Transaction)
    → Distinct (tx_ids txs)
    → Apart (tx_ids txs) seen
    → (seen' : List Bytes) × (mark_transactions seen txs ≡ ok seen')
unfolding mark_transactions
mark_transactions-fresh seen [] d a = (seen, refl)
mark_transactions-fresh seen (tx ∷ txs) d a =
    let (seen', e) =
      mark_transactions-fresh (tx.id ∷ seen) txs d.1
        ((Apart-cons_right (tx_ids txs) tx.id seen).1 (d.0, a.1)) in
    (seen', ground (arith, a.0))
