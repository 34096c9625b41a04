-- ===== src/Miner/Round.antt =====
-- `MineOnce`.
use distributed_p2p_ledger.Base.{
  ℕ, ◌+◌, ◌≤◌, ◌<◌, ◌≡◌, refl, sym, has, Apart-ext, ap, ◌∙◌, inl, inr, Bool-cases, true, false,
  List, [], ◌∷◌, ◌++◌, length, ◌==◌, arith, ℤ, pos, ◌≤ℤ◌, Option, some, Error, Result, Result-cases,
  ok, err,
}
use distributed_p2p_ledger.Models.Transaction.{Transaction}
use distributed_p2p_ledger.Models.Block.{
  Block, create_genesis_block, ids, genesis_timestamp, max_chain_blocks,
}
use distributed_p2p_ledger.Models.Chain.{encode_chain, chain_ids}
use distributed_p2p_ledger.Storage.ChainFile.{max_chain_bytes}
use distributed_p2p_ledger.Storage.Invariant.{IsLedgerChain}
use distributed_p2p_ledger.Storage.Extends.{Extends}
use distributed_p2p_ledger.Storage.Save.{AllSucceed}
use distributed_p2p_ledger.Gossip.{Engine, Env, mining_work, handle_incoming_block}
use distributed_p2p_ledger.Gossip.Invariant.{IsValidEngine}
use distributed_p2p_ledger.Gossip.Receive.{Accepted, handle_incoming_block-ok}
use distributed_p2p_ledger.Gossip.Spread.{handle_incoming_block-accepts}
use distributed_p2p_ledger.Miner.{Signal, candidate, solve, hand_over, mine_once}
use distributed_p2p_ledger.Miner.Search.{Solved, solve-returns, solve-Solved}
use distributed_p2p_ledger.Miner.Candidate.{mining_work-IsJob, Solved-Extends}

module _ (start : ℕ) (difficulty : ℤ) (signals : ℕ → Signal) (env : Env) (g later : Engine) where
  mine_once-no_work :
      (e : Error)
      → mining_work g ≡ err e
      → mine_once start difficulty signals env g later ≡ some (err e, later)
  unfolding mine_once
  mine_once-no_work e h = rw (h, mine_once) refl

  mine_once-idle :
      (tip : Block) (pending : List Transaction) (generation : ℕ)
      → mining_work g ≡ ok (tip, pending, generation)
      → (length pending == 0) ≡ true
      → mine_once start difficulty signals env g later ≡ some (ok tt, later)
  unfolding mine_once
  mine_once-idle tip pending generation h z = rw (h, z, mine_once) refl

  mine_once-works :
      (tip : Block) (pending : List Transaction) (generation : ℕ)
      → mining_work g ≡ ok (tip, pending, generation)
      → (length pending == 0) ≡ false
      → mine_once start difficulty signals env g later
        ≡ hand_over env later (solve signals (candidate start difficulty tip pending))
  unfolding mine_once
  mine_once-works tip pending generation h z = rw (h, z, mine_once) refl

  hand_over-block :
      (r : Option (Result (Unit {0}) × Block)) (b : Block)
      → r ≡ some (ok tt, b)
      → hand_over env later r ≡ some (handle_incoming_block env b later)
  unfolding hand_over
  hand_over-block r b e = rw e refl

  hand_over-returns :
      (r : Result (Unit {0}) × Block)
      → (t : Result (Unit {0}) × Engine) × (hand_over env later (some r) ≡ some t)
  unfolding hand_over
  hand_over-returns (err e, b) = ((err e, later), refl)
  hand_over-returns (ok _, b) = (handle_incoming_block env b later, refl)

  -- `MineOnce` ends with a result, whatever its engine is when it starts and when it hands its
  -- block over, and whatever the channels do.
  pub mine_once-returns :
      (t : Result (Unit {0}) × Engine) × (mine_once start difficulty signals env g later ≡ some t)
  mine_once-returns = elim (Result-cases (mining_work g)) [
    | inr (e, h) ↦ (_, mine_once-no_work e h)
    | inl ((tip, pending, generation), h) ↦ elim (Bool-cases (length pending == 0)) [
      | inl z ↦ (_, mine_once-idle tip pending generation h z)
      | inr z ↦
          let (r, solved) =
            solve-returns signals (candidate start difficulty tip pending) (omega arith) in
          let (t, e) = hand_over-returns r in
          (t, mine_once-works tip pending generation h z ∙ ap (hand_over env later) solved ∙ e)
    ]
  ]

positive : (n : ℕ) → 1 ≤ n → (n == 0) ≡ false
positive n h = ground arith

-- A ledger is one for a single difficulty, that of its genesis block.
IsLedgerChain-difficulty :
    (now : ℕ) (d d' : ℤ) (chain : List Block)
    → IsLedgerChain now d chain
    → IsLedgerChain now d' chain
    → d ≡ d'
unfolding create_genesis_block
IsLedgerChain-difficulty now d d' [] l m = absurd l
IsLedgerChain-difficulty now d d' (first ∷ chain) l m =
    ap (λ (b : Block). b.difficulty) (sym l.genesis ∙ m.genesis)

-- What extends the store of one engine extends that of another with the same chain.
Extends-same_chain :
    (now : ℕ) (b prev : Block) (g later : Engine)
    → IsValidEngine now g
    → IsValidEngine now later
    → later.chain_store.chain ≡ g.chain_store.chain
    → Extends now b prev g.chain_store
    → Extends now b prev later.chain_store
Extends-same_chain now b prev g later v w chain x = record {
  valid =
      rw
        (IsLedgerChain-difficulty now later.chain_store.difficulty g.chain_store.difficulty
          g.chain_store.chain (rw (← chain) w.store.ledger) v.store.ledger)
        x.valid;
  tip = rw chain x.tip;
  index = x.index;
  prev_hash = x.prev_hash;
  timestamp = x.timestamp;
  new_ids =
      Apart-ext (ids b) g.chain_store.tx_ids later.chain_store.tx_ids
        (λ k.
          w.store.indexed k
          ∙ ap (λ (c : List Block). has (chain_ids c) k) chain
          ∙ sym (v.store.indexed k))
        x.new_ids;
}

module _ (start : ℕ) (difficulty : ℤ) (signals : ℕ → Signal) (env : Env) (g later : Engine)
    (v : IsValidEngine env.now g) (w : IsValidEngine env.now later)
    (own : difficulty ≡ g.chain_store.difficulty)
    (same_chain : later.chain_store.chain ≡ g.chain_store.chain) (le : start ≤ env.now)
    (since : genesis_timestamp ≤ℤ pos (env.now + 120))
    (room : length g.chain_store.chain < max_chain_blocks) where
  -- For a miner with the difficulty of the store, on an engine that satisfies the invariant when
  -- the work is read and when the search ends, and that has then the same chain, with room for a
  -- block, and with clocks that do not run backwards and are not more than 120 seconds before the
  -- genesis block: if there is work, the search finds a block, saving it succeeds and the chain
  -- file has room, then `MineOnce` returns no error and the engine of the end has accepted that
  -- block.
  pub mine_once-Accepted :
      (tip : Block) (pending : List Transaction) (generation : ℕ) (b : Block)
      → mining_work g ≡ ok (tip, pending, generation)
      → 1 ≤ length pending
      → solve signals (candidate start difficulty tip pending) ≡ some (ok tt, b)
      → AllSucceed env.io
      → length (encode_chain (g.chain_store.chain ++ b ∷ [])) ≤ max_chain_bytes
      → (t : Engine) × (mine_once start difficulty signals env g later ≡ some (ok tt, t))
        × Accepted b later t
  mine_once-Accepted tip pending generation b work some_pending solved io fits =
      let fresh = candidate start difficulty tip pending in
      let job = mining_work-IsJob env.now g tip pending generation v work in
      let found : Solved (candidate start g.chain_store.difficulty tip pending) b =
        rw (← own) (solve-Solved signals fresh (omega arith) b solved) in
      let (prev, x) =
        Solved-Extends start env.now g v le since room tip pending b job some_pending found in
      let accepted =
        handle_incoming_block-accepts env b prev later w
          (Extends-same_chain env.now b prev g later v w same_chain x) io (rw same_chain fits) in
      let (_, _, a) = handle_incoming_block-ok env b later w accepted in
      let t = (handle_incoming_block env b later).1 in
      (
        t,
        mine_once-works start difficulty signals env g later tip pending generation work
              (positive (length pending) some_pending)
            ∙ hand_over-block start difficulty signals env g later (solve signals fresh) b solved
            ∙ ap (λ (r : Result (Unit {0})). some (r, t)) accepted,
        a,
      )
