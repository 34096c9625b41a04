-- ===== src/Miner/Candidate.antt =====
-- The block that the miner makes of the tip and the pool.
use mathlib.Core.Path.{subst}
use distributed_p2p_ledger.Base.{
  ℕ, ◌+◌, ◌≤◌, ◌<◌, ◌≡◌, refl, ap, sym, ◌∙◌, inl, inr, Bool-cases, true, false, List, [], ◌∷◌,
  Bytes, length, length-take, ltb, arith, All, Distinct, Apart, Apart-of, Apart-has, has, ℤ, pos,
  ◌≤ℤ◌, ◌+ℤ◌, +ℤ_small, max_ℤ, max_ℤ_bounds, max_ℤ-le, slice, take, last_or, ok, >>=-eq-ok,
}
use distributed_p2p_ledger.Models.Transaction.{Transaction, tx_ids, IsValidTransaction}
use distributed_p2p_ledger.Models.Block.{
  Block, create_genesis_block, genesis_timestamp, max_chain_blocks, max_block_transactions,
}
use distributed_p2p_ledger.Models.Block.Hash.{length-calculate_hash}
use distributed_p2p_ledger.Models.Block.Validity.{IsDifficulty, IsValidBlock}
use distributed_p2p_ledger.Models.Chain.Validity.{IsLedger, IsLinked}
use distributed_p2p_ledger.Models.Chain.Extend.{tip-index}
use distributed_p2p_ledger.Storage.{Store, last_block, get_latest_block}
use distributed_p2p_ledger.Storage.Invariant.{IsLedgerChain}
use distributed_p2p_ledger.Storage.Extends.{Extends}
use distributed_p2p_ledger.Mempool.{get_pending}
use distributed_p2p_ledger.Mempool.Invariant.{pending_ids}
use distributed_p2p_ledger.Mempool.Sorted.{
  has-get_pending, get_pending-Distinct, get_pending-All, take-All, has-take, take-Distinct,
}
use distributed_p2p_ledger.Gossip.{Engine, mining_work}
use distributed_p2p_ledger.Gossip.Invariant.{IsValidEngine}
use distributed_p2p_ledger.Miner.{candidate}
use distributed_p2p_ledger.Miner.Search.{Solved}

-- What a block needs for another to be mined on it.
pub record IsBase (now : ℕ) (b : Block) : Type 0 where
  since : genesis_timestamp ≤ℤ b.timestamp
  until : b.timestamp ≤ℤ pos (now + 120)
  hash_length : length b.hash ≡ 64

valid-IsBase : (now : ℕ) (b : Block) (d : ℤ) → IsValidBlock now b d → IsBase now b
valid-IsBase now b d v = record {
  since = v.time_range.0;
  until = v.time_range.1;
  hash_length = rw v.hash (length-calculate_hash b);
}

genesis-IsBase :
    (now : ℕ) (d : ℤ)
    → genesis_timestamp ≤ℤ pos (now + 120)
    → IsBase now (create_genesis_block (d ∷ []))
unfolding create_genesis_block
genesis-IsBase now d h = record {
  since = omega arith;
  until = h;
  hash_length = length-calculate_hash _;
}

tip-IsBase :
    (now : ℕ) (d : ℤ) (i : ℕ) (prev : Block) (chain : List Block)
    → IsBase now prev
    → IsLinked now d i prev chain
    → IsBase now (last_or prev chain)
tip-IsBase now d i prev [] base l = base
tip-IsBase now d i prev (b ∷ chain) base l =
    tip-IsBase now d (i + 1) b chain (valid-IsBase now b d l.0) l.2

ledger-IsBase :
    (now : ℕ) (d : ℤ) (first : Block) (chain : List Block)
    → genesis_timestamp ≤ℤ pos (now + 120)
    → IsLedger now d first chain
    → IsBase now (last_or first chain)
ledger-IsBase now d first chain h l =
    tip-IsBase now d 1 first chain (rw l.genesis (genesis-IsBase now d h)) l.linked

-- The transactions that are mined are some of the pending ones.
pub record IsWork (g : Engine) (pending : List Transaction) : Type 0 where
  valid : All IsValidTransaction pending
  distinct : Distinct (tx_ids pending)
  few : length pending ≤ max_block_transactions
  new : Apart (tx_ids pending) g.chain_store.tx_ids

module _ (now : ℕ) (g : Engine) (v : IsValidEngine now g) where
  pending-new :
      (k : Bytes)
      → has (tx_ids (get_pending g.mempool)) k ≡ true
      → has g.chain_store.tx_ids k ≡ false
  pending-new k h =
      Apart-has (pending_ids g.mempool) g.chain_store.tx_ids k v.apart
        (sym (has-get_pending g.mempool v.pool k) ∙ h)

  all-IsWork :
      length (get_pending g.mempool) ≤ max_block_transactions → IsWork g (get_pending g.mempool)
  all-IsWork h = record {
    valid = get_pending-All g.mempool v.pool;
    distinct = get_pending-Distinct g.mempool v.pool;
    few = h;
    new = Apart-of (tx_ids (get_pending g.mempool)) g.chain_store.tx_ids pending-new;
  }

  take-has :
      (k : Bytes)
      → has (tx_ids (take max_block_transactions (get_pending g.mempool))) k ≡ true
      → has (tx_ids (get_pending g.mempool)) k ≡ true
  take-has k m = elim (Bool-cases (has (tx_ids (get_pending g.mempool)) k)) [
    | inl h ↦ h
    | inr h ↦ absurd (cc (m, has-take max_block_transactions (get_pending g.mempool) k h))
  ]

  some-IsWork : IsWork g (take max_block_transactions (get_pending g.mempool))
  some-IsWork = record {
    valid =
        take-All IsValidTransaction max_block_transactions (get_pending g.mempool)
          (get_pending-All g.mempool v.pool);
    distinct =
        take-Distinct max_block_transactions (get_pending g.mempool)
          (get_pending-Distinct g.mempool v.pool);
    few = omega (arith, length-take max_block_transactions (get_pending g.mempool));
    new =
        Apart-of (tx_ids (take max_block_transactions (get_pending g.mempool))) g.chain_store.tx_ids
          (λ k m. pending-new k (take-has k m));
  }

-- What `MiningWork` returns: the tip and pending transactions that a block may confirm.
pub record IsJob (g : Engine) (tip : Block) (pending : List Transaction) : Type 0 where
  base :
      (prev : Block) × (last_block g.chain_store.chain ≡ ok prev)
      × (tip.index ≡ prev.index)
      × (tip.hash ≡ prev.hash)
      × (tip.timestamp ≡ prev.timestamp)
  work : IsWork g pending

last_block-clone :
    (s : Store) (tip : Block)
    → get_latest_block s ≡ ok tip
    → (prev : Block) × (last_block s.chain ≡ ok prev)
      × (tip.index ≡ prev.index)
      × (tip.hash ≡ prev.hash)
      × (tip.timestamp ≡ prev.timestamp)
unfolding get_latest_block
last_block-clone s tip h =
    let (prev, e, h') = >>=-eq-ok (last_block s.chain) _ h in
    (prev, e, ground arith, ground arith, ground arith)

leb_of_ltb : (m n : ℕ) → ltb m n ≡ false → n ≤ m
leb_of_ltb m n h = ground arith

pub mining_work-IsJob :
    (now : ℕ) (g : Engine) (tip : Block) (pending : List Transaction) (generation : ℕ)
    → IsValidEngine now g
    → mining_work g ≡ ok (tip, pending, generation)
    → IsJob g tip pending
unfolding mining_work
mining_work-IsJob now g tip pending generation v h =
    let (tip', e, h') = >>=-eq-ok (get_latest_block g.chain_store) _ h in
    record {
      base = last_block-clone g.chain_store tip (ground arith);
      work = elim (Bool-cases (ltb max_block_transactions (length (get_pending g.mempool)))) [
        | inl many ↦ subst (IsWork g) (ground arith) (some-IsWork now g v)
        | inr few ↦ subst (IsWork g) (ground arith) (
            all-IsWork now g v
              (leb_of_ltb max_block_transactions (length (get_pending g.mempool)) few))
      ];
    }

module _ (start now : ℕ) (g : Engine) (v : IsValidEngine now g) (le : start ≤ now)
    (since : genesis_timestamp ≤ℤ pos (now + 120))
    (room : length g.chain_store.chain < max_chain_blocks) where
  tip_lem :
      (chain : List Block)
      → g.chain_store.chain ≡ chain
      → (prev : Block) → last_block chain ≡ ok prev
      → IsBase now prev
        × (prev.index +ℤ pos 1 ≡ pos (length chain))
        × (1 ≤ length chain)
        × IsDifficulty g.chain_store.difficulty
  unfolding last_block
  tip_lem [] e prev h = absurd (ground arith)
  tip_lem (first ∷ rest) e prev h =
      let l : IsLedger now g.chain_store.difficulty first rest =
        subst (IsLedgerChain now g.chain_store.difficulty) e v.store.ledger in
      let p : prev ≡ last_or first rest = ground arith in
      (
        rw p (ledger-IsBase now g.chain_store.difficulty first rest since l),
        rw p (
            ap (λ (i : ℤ). i +ℤ pos 1) (tip-index l)
            ∙ +ℤ_small (length rest) 1 (omega (arith, l.short))
            ∙ ap pos (omega arith)),
        omega arith,
        l.difficulty_range,
      )

  -- A solved candidate on the engine's own work extends the ledger.
  pub Solved-Extends :
      (tip : Block) (pending : List Transaction) (b : Block)
      → IsJob g tip pending
      → 1 ≤ length pending
      → Solved (candidate start g.chain_store.difficulty tip pending) b
      → (prev : Block) × Extends now b prev g.chain_store
  Solved-Extends tip pending b job some_pending s =
      let (prev, last, index, hash, time) = job.base in
      let (base, next, blocks, range) = tip_lem g.chain_store.chain refl prev last in
      let w = job.work in
      let at : b.timestamp ≡ max_ℤ (pos start) prev.timestamp =
        ap (λ (t : Block). t.timestamp) s.block ∙ ap (max_ℤ (pos start)) time in
      let height : b.index ≡ pos (length g.chain_store.chain) =
        ap (λ (t : Block). t.index) s.block ∙ ap (λ (i : ℤ). i +ℤ pos 1) index ∙ next in
      let bounds = max_ℤ_bounds (pos start) prev.timestamp in
      let txs : b.transactions ≡ slice pending = ap (λ (t : Block). t.transactions) s.block in
      (
        prev,
        record {
          valid = record {
            difficulty_range = range;
            version = ap (λ (t : Block). t.version) s.block;
            difficulty = ap (λ (t : Block). t.difficulty) s.block;
            index_range = rw height (omega (arith, blocks), omega (arith, room));
            prev_hash_length =
                ap length (ap (λ (t : Block). t.prev_hash) s.block ∙ hash) ∙ base.hash_length;
            time_range = rw at (
              omega (arith, bounds.1, base.since),
              max_ℤ-le (pos start) prev.timestamp (pos (now + 120)) (omega (arith, le)) base.until,
            );
            size_range = rw txs (some_pending, w.few);
            transactions = rw txs w.valid;
            distinct_ids = rw txs w.distinct;
            hash = s.hash;
            work = s.work;
          };
          tip = last;
          index = ap (λ (t : Block). t.index) s.block ∙ ap (λ (i : ℤ). i +ℤ pos 1) index;
          prev_hash = ap (λ (t : Block). t.prev_hash) s.block ∙ hash;
          timestamp = rw at bounds.1;
          new_ids = rw txs w.new;
        },
      )
