-- ===== src/Mempool/Sorted.antt =====
-- What sorting and cutting a list of transactions keeps: the IDs, their being distinct, and any
-- property of each transaction.
use distributed_p2p_ledger.Base.{
  ℕ, zero, suc, ◌≡◌, refl, ap, ◌∙◌, false, ◌||◌, List, [], ◌∷◌, Bytes, arith, All, Distinct, has,
  ◌==ₛ◌, ==ₛ_iff, take, Map, keys, values,
}
use distributed_p2p_ledger.Models.Transaction.{Transaction, tx_ids, IsValidTransaction}
use distributed_p2p_ledger.Mempool.{Mempool, insert_by_id, sort_by_id, get_pending}
use distributed_p2p_ledger.Mempool.Invariant.{IsOwn, IsValidPool, pending_ids}

has-insert_by_id :
    (tx : Transaction) (xs : List Transaction) (k : Bytes)
    → has (tx_ids (insert_by_id tx xs)) k ≡ ((tx.id ==ₛ k) || has (tx_ids xs) k)
unfolding insert_by_id has
has-insert_by_id tx [] k = refl
has-insert_by_id tx (x ∷ xs) k = ground (arith, has-insert_by_id tx xs k)

pub has-sort_by_id :
    (xs : List Transaction) (k : Bytes) → has (tx_ids (sort_by_id xs)) k ≡ has (tx_ids xs) k
unfolding sort_by_id has
has-sort_by_id [] k = refl
has-sort_by_id (x ∷ xs) k =
    ground (arith, has-insert_by_id x (sort_by_id xs) k, has-sort_by_id xs k)

insert_by_id-Distinct :
    (tx : Transaction) (xs : List Transaction)
    → has (tx_ids xs) tx.id ≡ false
    → Distinct (tx_ids xs)
    → Distinct (tx_ids (insert_by_id tx xs))
unfolding insert_by_id has
insert_by_id-Distinct tx [] new d = (refl, tt)
insert_by_id-Distinct tx (x ∷ xs) new d = ground (
  arith,
  insert_by_id-Distinct tx xs,
  has-insert_by_id tx xs x.id,
  ==ₛ_iff x.id tx.id,
  ==ₛ_iff tx.id x.id,
)

sort_by_id-Distinct :
    (xs : List Transaction) → Distinct (tx_ids xs) → Distinct (tx_ids (sort_by_id xs))
unfolding sort_by_id
sort_by_id-Distinct [] d = tt
sort_by_id-Distinct (x ∷ xs) d =
    insert_by_id-Distinct x (sort_by_id xs) (has-sort_by_id xs x.id ∙ d.0)
      (sort_by_id-Distinct xs d.1)

insert_by_id-All {κ} :
    (P : Transaction → Type κ) (tx : Transaction) (xs : List Transaction)
    → P tx
    → All P xs
    → All P (insert_by_id tx xs)
unfolding insert_by_id
insert_by_id-All P tx [] p h = (p, tt)
insert_by_id-All P tx (x ∷ xs) p h = ground (arith, insert_by_id-All P tx xs p h.1)

sort_by_id-All {κ} :
    (P : Transaction → Type κ) (xs : List Transaction) → All P xs → All P (sort_by_id xs)
unfolding sort_by_id
sort_by_id-All P [] h = tt
sort_by_id-All P (x ∷ xs) h = insert_by_id-All P x (sort_by_id xs) h.0 (sort_by_id-All P xs h.1)

-- Stored under their own IDs, the transactions of a map have its keys for IDs.
pub tx_ids-values : (m : Map Transaction) → All IsOwn m → tx_ids (values m) ≡ keys m
tx_ids-values [] own = refl
tx_ids-values ((k, v) ∷ m) own = ground (arith, IsOwn.key own.0, tx_ids-values m own.1)

pub values-All : (m : Map Transaction) → All IsOwn m → All IsValidTransaction (values m)
values-All [] own = tt
values-All ((k, v) ∷ m) own = (IsOwn.valid own.0, values-All m own.1)

module _ (m : Mempool) (v : IsValidPool m) where
  pub has-get_pending : (k : Bytes) → has (tx_ids (get_pending m)) k ≡ has (pending_ids m) k
  unfolding get_pending
  has-get_pending k =
      has-sort_by_id (values m.transactions) k
      ∙ ap (λ (l : List Bytes). has l k) (tx_ids-values m.transactions v.own)

  pub get_pending-Distinct : Distinct (tx_ids (get_pending m))
  unfolding get_pending
  get_pending-Distinct =
      sort_by_id-Distinct (values m.transactions)
        (rw (tx_ids-values m.transactions v.own) v.distinct)

  pub get_pending-All : All IsValidTransaction (get_pending m)
  unfolding get_pending
  get_pending-All =
      sort_by_id-All IsValidTransaction (values m.transactions) (values-All m.transactions v.own)

pub take-All {κ} :
    (P : Transaction → Type κ) (n : ℕ) (xs : List Transaction) → All P xs → All P (take n xs)
take-All P zero xs h = tt
take-All P (suc n) [] h = tt
take-All P (suc n) (x ∷ xs) h = (h.0, take-All P n xs h.1)

pub has-take :
    (n : ℕ) (xs : List Transaction) (k : Bytes)
    → has (tx_ids xs) k ≡ false
    → has (tx_ids (take n xs)) k ≡ false
unfolding has
has-take zero xs k h = refl
has-take (suc n) [] k h = refl
has-take (suc n) (x ∷ xs) k h = ground (arith, has-take n xs k)

pub take-Distinct :
    (n : ℕ) (xs : List Transaction) → Distinct (tx_ids xs) → Distinct (tx_ids (take n xs))
take-Distinct zero xs d = tt
take-Distinct (suc n) [] d = tt
take-Distinct (suc n) (x ∷ xs) d = (has-take n xs x.id d.0, take-Distinct n xs d.1)
