-- ===== src/Api/Queries.antt =====
-- GET /transaction/:id.
use mathlib.Core.List.{Mem, mem-cons_self, mem-cons_of_mem}
use mathlib.Core.Path.{ap₂}
use distributed_p2p_ledger.Base.{
  ℕ, suc, get_elem?, lookup, Distinct, ◌+◌, ◌-◌, ◌^◌, ◌≤◌, ◌<◌, ◌≡◌, refl, ap, sym, ◌∙◌, inl, inr,
  Bool-cases, true, false, List, [], ◌∷◌, Bytes, length, has, has-append, has-cons, has-nil, ◌==ₛ◌,
  ==ₛ_iff, arith, ℤ, pos, elements, none, some, ok,
}
use distributed_p2p_ledger.Models.Transaction.{Transaction, tx_ids}
use distributed_p2p_ledger.Models.Block.{Block, ids, create_genesis_block}
use distributed_p2p_ledger.Models.Chain.{chain_ids}
use distributed_p2p_ledger.Models.Chain.Validity.{IsLinked, Follows}
use distributed_p2p_ledger.Mempool.{get_pending}
use distributed_p2p_ledger.Mempool.Latest.{latest, latest-absent, latest-get_pending}
use distributed_p2p_ledger.Mempool.Sorted.{has-get_pending, get_pending-Distinct}
use distributed_p2p_ledger.Storage.{get_chain}
use distributed_p2p_ledger.Storage.Invariant.{IsLedgerChain, clone_chain-ledger}
use distributed_p2p_ledger.Gossip.{Engine, read_state}
use distributed_p2p_ledger.Gossip.Invariant.{IsValidEngine, knows}
use distributed_p2p_ledger.Api.{
  Reply, Payload, not_found, refused, pending_transaction, confirmed_transaction, find_transaction,
  find_confirmed, find_pending, confirmations, get_transaction,
}

-- A search for an ID: it misses, or it finds a transaction of the list with that ID.
data Search (id : Bytes) (txs : List Transaction) : Type 0 where
  miss : find_transaction id txs ≡ none → has (tx_ids txs) id ≡ false → Search id txs
  hit :
      (tx : Transaction)
      → find_transaction id txs ≡ some tx
      → has (tx_ids txs) id ≡ true
      → tx.id ≡ id
      → Mem tx txs
      → Search id txs

find_transaction-Search : (id : Bytes) (txs : List Transaction) → Search id txs
unfolding find_transaction
find_transaction-Search id [] = Search.miss refl (has-nil id)
find_transaction-Search id (tx ∷ txs) = elim (Bool-cases (tx.id ==ₛ id)) [
  | inl same ↦
      Search.hit tx (ground arith) (ground (arith, has-cons tx.id (tx_ids txs) id))
        ((==ₛ_iff tx.id id).0 same) mem-cons_self
  | inr other ↦ elim (find_transaction-Search id txs) [
    | Search.miss e h ↦ Search.miss (ground arith) (ground (arith, has-cons tx.id (tx_ids txs) id))
    | Search.hit found e h same m ↦
        Search.hit found (ground arith) (ground (arith, has-cons tx.id (tx_ids txs) id)) same
          (mem-cons_of_mem tx m)
  ]
]

-- In a list without equal IDs, the transaction that is found is the only one with its ID.
find_transaction-latest :
    (id : Bytes) (txs : List Transaction) (tx : Transaction)
    → Distinct (tx_ids txs)
    → find_transaction id txs ≡ some tx
    → latest id none txs ≡ some tx
unfolding find_transaction latest
find_transaction-latest id [] tx d e = absurd (ground arith)
find_transaction-latest id (x ∷ txs) tx d e =
    ground
      (arith, ==ₛ_iff x.id id, latest-absent id (some x) txs, find_transaction-latest id txs tx d.1)

-- The same in a chain whose blocks have the indices from `start` on: the block at place `j`, which is at
-- least `low`, holds the transaction.
data ChainSearch (id : Bytes) (start low : ℕ) (chain : List Block) : Type 0 where
  miss :
      find_confirmed id chain ≡ none
      → has (chain_ids chain) id ≡ false
      → ChainSearch id start low chain
  hit :
      (b : Block) (tx : Transaction) (j : ℕ)
      → find_confirmed id chain ≡ some (b, tx)
      → has (chain_ids chain) id ≡ true
      → tx.id ≡ id
      → Mem tx (elements b.transactions)
      → get_elem? chain j ≡ some b
      → b.index ≡ pos (start + j)
      → low ≤ j
      → j < length chain
      → ChainSearch id start low chain

find_confirmed-ChainSearch :
    (now : ℕ) (d : ℤ) (id : Bytes) (start : ℕ) (prev : Block) (chain : List Block)
    → IsLinked now d start prev chain
    → ChainSearch id start 0 chain
unfolding find_confirmed
find_confirmed-ChainSearch now d id start prev [] l = ChainSearch.miss refl (has-nil id)
find_confirmed-ChainSearch now d id start prev (b ∷ chain) l =
    let split = has-append (ids b) (chain_ids chain) id in
    elim (find_transaction-Search id (elements b.transactions)) [
      | Search.hit tx e h same m ↦
          ChainSearch.hit b tx 0 (ground arith) (ground arith) same m refl
            (Follows.index l.1 ∙ ap pos (omega arith)) (omega arith) (omega arith)
      | Search.miss e h ↦ elim (find_confirmed-ChainSearch now d id (start + 1) b chain l.2) [
        | ChainSearch.miss e' h' ↦ ChainSearch.miss (ground arith) (ground arith)
        | ChainSearch.hit c tx j e' h' same m place index low high ↦
            ChainSearch.hit c tx (suc j) (ground arith) (ground arith) same m place
              (index ∙ ap pos (omega arith)) (omega arith) (omega arith)
      ]
    ]

-- The genesis block confirms nothing.
genesis-find :
    (d : ℤ) (id : Bytes) (chain : List Block)
    → (find_confirmed id (create_genesis_block (d ∷ []) ∷ chain) ≡ find_confirmed id chain)
      × (has (chain_ids (create_genesis_block (d ∷ []) ∷ chain)) id ≡ has (chain_ids chain) id)
unfolding find_confirmed create_genesis_block find_transaction
genesis-find d id chain = (refl, refl)

IsLedgerChain-ChainSearch :
    (now : ℕ) (d : ℤ) (id : Bytes) (chain : List Block)
    → IsLedgerChain now d chain
    → ChainSearch id 0 1 chain
IsLedgerChain-ChainSearch now d id [] l = absurd l
IsLedgerChain-ChainSearch now d id (first ∷ chain) l =
    let (found, ids) = genesis-find d id chain in
    rw l.genesis (elim (find_confirmed-ChainSearch now d id 1 first chain l.linked) [
      | ChainSearch.miss e h ↦ ChainSearch.miss (found ∙ e) (ids ∙ h)
      | ChainSearch.hit b tx j e h same m place index low high ↦
          ChainSearch.hit b tx (suc j) (found ∙ e) (ids ∙ h) same m place
            (index ∙ ap pos (omega arith)) (omega arith) (omega (arith, high))
    ])

ledger-short :
    (now : ℕ) (d : ℤ) (chain : List Block) → IsLedgerChain now d chain → length chain < 2 ^ 63
ledger-short now d [] l = absurd l
ledger-short now d (first ∷ chain) l = omega (arith, l.short)

confirmations_lem :
    (chain : List Block) (b : Block) (i : ℕ)
    → b.index ≡ pos i
    → i < length chain
    → length chain < 2 ^ 63
    → confirmations chain b ≡ pos (length chain - i)
unfolding confirmations
confirmations_lem chain b i e h short = rw e (ground arith)

-- What a query for `id` answers: the transaction of that ID that the block at place `i`, behind the
-- genesis block, holds, with the number of blocks from that one on; or the pool's transaction under that
-- ID; or not found.
pub data Found (id : Bytes) (g : Engine) (r : Reply) : Type 0 where
  confirmed :
      (b : Block) (tx : Transaction) (i : ℕ)
      → r ≡ record {
        code = 200;
        answer = confirmed_transaction tx (pos i) (pos (length g.chain_store.chain - i));
      }
      → tx.id ≡ id
      → get_elem? g.chain_store.chain i ≡ some b
      → b.index ≡ pos i
      → Mem tx (elements b.transactions)
      → has g.chain_store.tx_ids id ≡ true
      → 1 ≤ i
      → i < length g.chain_store.chain
      → Found id g r
  pending :
      (tx : Transaction)
      → r ≡ record { code = 200; answer = pending_transaction tx }
      → tx.id ≡ id
      → lookup id g.mempool.transactions ≡ some tx
      → has g.chain_store.tx_ids id ≡ false
      → Found id g r
  unknown :
      r ≡ record { code = 404; answer = refused (not_found id) } → knows g id ≡ false → Found id g r

module _ (now : ℕ) (id : Bytes) (g : Engine) (v : IsValidEngine now g) where
  read_state-chain : read_state g ≡ ok (g.chain_store.chain, get_pending g.mempool)
  unfolding read_state get_chain
  read_state-chain =
      ap (λ (c : List Block). ok (c, get_pending g.mempool))
        (clone_chain-ledger now g.chain_store.difficulty g.chain_store.chain v.store.ledger)

  get_transaction_confirmed :
      (b : Block) (tx : Transaction)
      → find_confirmed id g.chain_store.chain ≡ some (b, tx)
      → get_transaction id g ≡ record {
        code = 200;
        answer = confirmed_transaction tx b.index (confirmations g.chain_store.chain b);
      }
  unfolding get_transaction
  get_transaction_confirmed b tx e = rw (read_state-chain, e, get_transaction) refl

  get_transaction_pending :
      find_confirmed id g.chain_store.chain ≡ none
      → get_transaction id g ≡ find_pending id (get_pending g.mempool)
  unfolding get_transaction
  get_transaction_pending e = rw (read_state-chain, e, get_transaction) refl

  -- On an engine that satisfies the invariant, a query for an ID answers with a transaction of
  -- that ID that a block behind the genesis block holds, with this block's index, which is its
  -- place in the chain, and as many confirmations as there are blocks from that one on; or, if no
  -- block has the ID, with the transaction that the pool has under it; or with 404, and then the
  -- ID is neither confirmed nor pending.
  pub get_transaction-Found : Found id g (get_transaction id g)
  unfolding find_pending
  get_transaction-Found =
      elim (IsLedgerChain-ChainSearch now g.chain_store.difficulty id g.chain_store.chain
        v.store.ledger) [
          | ChainSearch.hit b tx i e h same m place at low high ↦
              let index : b.index ≡ pos i = at ∙ ap pos (omega arith) in
              Found.confirmed b tx i
                (get_transaction_confirmed b tx e
                  ∙ ap (λ (a : Payload). record { code = 200; answer = a })
                      (ap₂ (confirmed_transaction tx) index (
                        confirmations_lem g.chain_store.chain b i index high (
                          ledger-short now g.chain_store.difficulty g.chain_store.chain
                            v.store.ledger))))
                same place index m (v.store.indexed id ∙ h) low high
          | ChainSearch.miss e h ↦ elim (find_transaction-Search id (get_pending g.mempool)) [
            | Search.hit tx e' h' same _ ↦
                Found.pending tx (get_transaction_pending e ∙ rw (e', find_pending) refl) same
                  (sym (latest-get_pending id g.mempool v.pool)
                    ∙ find_transaction-latest id (get_pending g.mempool) tx
                        (get_pending-Distinct g.mempool v.pool) e')
                  (v.store.indexed id ∙ h)
            | Search.miss e' h' ↦
                Found.unknown (get_transaction_pending e ∙ rw (e', find_pending) refl)
                  (ground (arith, v.store.indexed id, has-get_pending g.mempool v.pool id))
          ]
        ]
