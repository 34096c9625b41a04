-- ===== src/Mempool/Invariant.antt =====
-- The pool's invariant, and `TryAdd` and `Remove`.
use distributed_p2p_ledger.Base.{
  ◌≤◌, ◌<◌, ◌≡◌, ◌↔◌, refl, inl, inr, false, ◌||◌, not, ◌&&◌, List, [], ◌∷◌, Bytes, length, arith,
  All, Distinct, has, ◌==ₛ◌, Map, insert, delete, keys, has-keys, has-keys-insert, has-keys-delete,
  insert-Distinct, delete-Distinct, length-insert, length-delete-le, insert-All, delete-All,
  Result-cases, ok, err, Error,
}
use distributed_p2p_ledger.Models.Transaction.{
  Transaction, IsValidTransaction, validate_transaction_iff,
}
use distributed_p2p_ledger.Mempool.{Mempool, max_pending, new_mempool, try_add, remove, delete_all}

-- An entry is stored under its own ID and is valid.
pub record IsOwn (e : Bytes × Transaction) : Type 0 where
  pub key : e.0 ≡ e.1.id
  pub valid : IsValidTransaction e.1

pub record IsValidPool (m : Mempool) : Type 0 where
  pub distinct : Distinct (keys m.transactions)
  pub own : All IsOwn m.transactions
  pub bounded : length m.transactions ≤ max_pending

pub new_mempool-IsValidPool : IsValidPool new_mempool
new_mempool-IsValidPool = record { distinct = tt; own = tt; bounded = omega arith }

-- The IDs in the pool.
abbrev pub pending_ids : Mempool → List Bytes
pending_ids m = keys m.transactions

module _ (tx : Transaction) (m : Mempool) where
  -- `TryAdd` succeeds exactly for a valid transaction whose ID is not pending, in a pool that is
  -- not full.
  pub try_add-ok_iff : ((try_add tx m).0 ≡ ok tt) ↔ (
      IsValidTransaction tx
      × (has (pending_ids m) tx.id ≡ false)
      × (length m.transactions < max_pending))
  unfolding try_add
  try_add-ok_iff =
      let valid = validate_transaction_iff tx in
      (
        λ h. (valid.0 (ground arith), ground (arith, has-keys tx.id m.transactions), ground arith),
        λ h. ground (arith, valid.1 h.0, has-keys tx.id m.transactions),
      )

  -- On success exactly one ID is added.
  pub pending_ids-try_add :
      (k : Bytes)
      → (try_add tx m).0 ≡ ok tt
      → has (pending_ids (try_add tx m).1) k ≡ ((tx.id ==ₛ k) || has (pending_ids m) k)
  unfolding try_add
  pending_ids-try_add k h = ground (arith, has-keys-insert tx.id k tx m.transactions)

  -- A refused transaction changes nothing.
  pub try_add_failed : (e : Error) → (try_add tx m).0 ≡ err e → (try_add tx m).1 ≡ m
  unfolding try_add
  try_add_failed e h = ground arith

  try_add_added :
      (try_add tx m).0 ≡ ok tt
      → (try_add tx m).1 ≡ record m { transactions = insert tx.id tx m.transactions }
  unfolding try_add
  try_add_added h = ground arith

  insert-IsValidPool :
      IsValidTransaction tx
      → has (pending_ids m) tx.id ≡ false
      → length m.transactions < max_pending
      → IsValidPool m
      → IsValidPool (record m { transactions = insert tx.id tx m.transactions })
  insert-IsValidPool valid new room v = record {
    distinct = insert-Distinct tx.id tx m.transactions v.distinct;
    own = insert-All IsOwn tx.id tx m.transactions (record { key = refl; valid = valid }) v.own;
    bounded = ground (arith, length-insert tx.id tx m.transactions);
  }

  -- `TryAdd` keeps the invariant on every branch.
  pub try_add-IsValidPool : IsValidPool m → IsValidPool (try_add tx m).1
  try_add-IsValidPool v = elim (Result-cases (try_add tx m).0) [
    | inl (_, h) ↦
        let (valid, new, room) = try_add-ok_iff.0 h in
        rw (try_add_added h) (insert-IsValidPool valid new room v)
    | inr (e, h) ↦ rw (try_add_failed e h) v
  ]

delete_all-All :
    (ids : List Bytes) (txs : Map Transaction) → All IsOwn txs → All IsOwn (delete_all ids txs)
unfolding delete_all
delete_all-All [] txs h = h
delete_all-All (id ∷ ids) txs h = delete_all-All ids (delete id txs) (delete-All IsOwn id txs h)

delete_all-Distinct :
    (ids : List Bytes) (txs : Map Transaction)
    → Distinct (keys txs)
    → Distinct (keys (delete_all ids txs))
unfolding delete_all
delete_all-Distinct [] txs h = h
delete_all-Distinct (id ∷ ids) txs h =
    delete_all-Distinct ids (delete id txs) (delete-Distinct id txs h)

length-delete_all-le :
    (ids : List Bytes) (txs : Map Transaction) → length (delete_all ids txs) ≤ length txs
unfolding delete_all
length-delete_all-le [] txs = omega arith
length-delete_all-le (id ∷ ids) txs =
    omega (arith, length-delete_all-le ids (delete id txs), length-delete-le id txs)

has-delete_all :
    (ids : List Bytes) (txs : Map Transaction) (k : Bytes)
    → has (keys (delete_all ids txs)) k ≡ (not (has ids k) && has (keys txs) k)
unfolding delete_all has
has-delete_all [] txs k = ground arith
has-delete_all (id ∷ ids) txs k =
    ground (arith, has-delete_all ids (delete id txs) k, has-keys-delete id k txs)

-- `Remove` keeps the invariant.
pub remove-IsValidPool :
    (ids : List Bytes) (m : Mempool) → IsValidPool m → IsValidPool (remove ids m)
unfolding remove
remove-IsValidPool ids m v = record {
  distinct = delete_all-Distinct ids m.transactions v.distinct;
  own = delete_all-All ids m.transactions v.own;
  bounded = omega (arith, length-delete_all-le ids m.transactions, v.bounded);
}

-- `Remove` takes exactly the given IDs out of the pool.
pub pending_ids-remove :
    (ids : List Bytes) (m : Mempool) (k : Bytes)
    → has (pending_ids (remove ids m)) k ≡ (not (has ids k) && has (pending_ids m) k)
unfolding remove
pending_ids-remove ids m k = has-delete_all ids m.transactions k
