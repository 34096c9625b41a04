-- ===== src/Node/Process/Round.antt =====
-- A round of the miner, with events of the other parts between its two steps.
use distributed_p2p_ledger.Base.{
  ℕ, ◌==◌, ◌≡◌, refl, ap, sym, ◌∙◌, inl, inr, Bool, true, false, List, [], ◌∷◌, ◌++◌, length, All,
  arith, Option, Result-cases, ℤ, pos, ◌≤ℤ◌, ◌≤◌, ◌<◌, ◌+◌, some, ok,
}
use distributed_p2p_ledger.Models.Transaction.{Transaction}
use distributed_p2p_ledger.Gossip.{Engine, Env, mining_work}
use distributed_p2p_ledger.Gossip.Http.{Response}
use distributed_p2p_ledger.Models.Block.{Block, genesis_timestamp, max_chain_blocks}
use distributed_p2p_ledger.Models.Chain.{encode_chain}
use distributed_p2p_ledger.Storage.ChainFile.{max_chain_bytes}
use distributed_p2p_ledger.Storage.Save.{AllSucceed}
use distributed_p2p_ledger.Gossip.Invariant.{IsValidEngine}
use distributed_p2p_ledger.Gossip.Receive.{Accepted}
use distributed_p2p_ledger.Gossip.Sync.{Advances}
use distributed_p2p_ledger.Miner.{Signal, candidate, solve, mine_once}
use distributed_p2p_ledger.Miner.Round.{mine_once-Accepted}
use distributed_p2p_ledger.Node.Process.Safe.{clock, process_run-Advances}
use distributed_p2p_ledger.Node.Process.{
  Codecs, Sync, Mining, Process, Event, asks_chain, asks_pool, submitting, starting, waiting,
  syncing, idle, request, sync_tick, sync_wanted, deadline, chain_comes, pool_comes, pool_submits,
  mine_tick, mine_ends, job_taken, on_tick, on_wanted, on_deadline, on_chain, on_pool, on_submit,
  begin_mining, on_mine_tick, on_mined, mined_engine, process_step, process_run,
}

-- An event that is not the miner's.
unfoldable pub is_other : Event → Bool
is_other (mine_tick now) = false
is_other (mine_ends signals env) = false
is_other _ = true

abbrev with_mining : Mining → Process → Process
with_mining m p = record p { mining = m }

module _ (m : Mining) (p : Process) where
  on_tick-with_mining : (s : Sync) → on_tick (with_mining m p) s ≡ with_mining m (on_tick p s)
  unfolding on_tick
  on_tick-with_mining starting = refl
  on_tick-with_mining waiting = refl
  on_tick-with_mining (syncing peers stage) = refl

  on_wanted-with_mining :
      (b : Bool) (s : Sync) → on_wanted (with_mining m p) b s ≡ with_mining m (on_wanted p b s)
  unfolding on_wanted
  on_wanted-with_mining true waiting = refl
  on_wanted-with_mining true starting = refl
  on_wanted-with_mining true (syncing peers stage) = refl
  on_wanted-with_mining false s = refl

  on_deadline-with_mining :
      (s : Sync) → on_deadline (with_mining m p) s ≡ with_mining m (on_deadline p s)
  unfolding on_deadline
  on_deadline-with_mining starting = refl
  on_deadline-with_mining waiting = refl
  on_deadline-with_mining (syncing peers asks_chain) = refl
  on_deadline-with_mining (syncing peers asks_pool) = refl
  on_deadline-with_mining (syncing peers (submitting txs)) = refl

  on_chain-with_mining :
      (codecs : Codecs) (env : Env) (answer : Option Response) (s : Sync)
      → on_chain codecs env answer (with_mining m p) s
        ≡ with_mining m (on_chain codecs env answer p s)
  unfolding on_chain
  on_chain-with_mining codecs env answer starting = refl
  on_chain-with_mining codecs env answer waiting = refl
  on_chain-with_mining codecs env answer (syncing peers asks_chain) = refl
  on_chain-with_mining codecs env answer (syncing peers asks_pool) = refl
  on_chain-with_mining codecs env answer (syncing peers (submitting txs)) = refl

  on_pool-with_mining :
      (codecs : Codecs) (answer : Option Response) (s : Sync)
      → on_pool codecs answer (with_mining m p) s ≡ with_mining m (on_pool codecs answer p s)
  unfolding on_pool
  on_pool-with_mining codecs answer starting = refl
  on_pool-with_mining codecs answer waiting = refl
  on_pool-with_mining codecs answer (syncing peers asks_chain) = refl
  on_pool-with_mining codecs answer (syncing peers asks_pool) = refl
  on_pool-with_mining codecs answer (syncing peers (submitting txs)) = refl

  on_submit-with_mining :
      (env : Env) (s : Sync) → on_submit env (with_mining m p) s ≡ with_mining m (on_submit env p s)
  unfolding on_submit
  on_submit-with_mining env starting = refl
  on_submit-with_mining env waiting = refl
  on_submit-with_mining env (syncing peers asks_chain) = refl
  on_submit-with_mining env (syncing peers asks_pool) = refl
  on_submit-with_mining env (syncing peers (submitting [])) = refl
  on_submit-with_mining env (syncing peers (submitting (tx ∷ txs))) = refl

not_empty : (tx : Transaction) (txs : List Transaction) → (length (tx ∷ txs) == 0) ≡ false
not_empty tx txs = ground arith

module _ (codecs : Codecs) (d : ℤ) where
  process_step-with_mining :
      (e : Event) (m : Mining) (p : Process)
      → is_other e ≡ true
      → process_step codecs d e (with_mining m p) ≡ with_mining m (process_step codecs d e p)
  unfolding process_step is_other
  process_step-with_mining (request call) m p other = refl
  process_step-with_mining sync_tick m p other = on_tick-with_mining m p p.sync
  process_step-with_mining sync_wanted m p other =
      on_wanted-with_mining m p p.engine.sync_needed p.sync
  process_step-with_mining deadline m p other = on_deadline-with_mining m p p.sync
  process_step-with_mining (chain_comes env answer) m p other =
      on_chain-with_mining m p codecs env answer p.sync
  process_step-with_mining (pool_comes answer) m p other =
      on_pool-with_mining m p codecs answer p.sync
  process_step-with_mining (pool_submits env) m p other = on_submit-with_mining m p env p.sync
  process_step-with_mining (mine_tick now) m p other = absurd (ground arith)
  process_step-with_mining (mine_ends signals env) m p other = absurd (ground arith)
  process_step-with_mining job_taken m p other = refl

  process_run-with_mining :
      (es : List Event) (m : Mining) (p : Process)
      → All (λ (e : Event). is_other e ≡ true) es
      → process_run codecs d es (with_mining m p) ≡ with_mining m (process_run codecs d es p)
  unfolding process_run
  process_run-with_mining [] m p others = refl
  process_run-with_mining (e ∷ es) m p others =
      ap (process_run codecs d es) (process_step-with_mining e m p others.0)
      ∙ process_run-with_mining es m (process_step codecs d e p) others.1

  process_run-append :
      (es fs : List Event) (p : Process)
      → process_run codecs d (es ++ fs) p ≡ process_run codecs d fs (process_run codecs d es p)
  unfolding process_run
  process_run-append [] fs p = refl
  process_run-append (e ∷ es) fs p = process_run-append es fs (process_step codecs d e p)

  -- The end of a round.
  begun-mine_once :
      (now : ℕ) (signals : ℕ → Signal) (env : Env) (g : Engine) (q : Process)
      → on_mined signals env
          (with_mining (begin_mining now d (mining_work g)) q)
          (begin_mining now d (mining_work g))
        ≡ record q {
          engine = mined_engine q.engine (mine_once now d signals env g q.engine);
          mining = idle;
        }
  unfolding on_mined mine_once begin_mining mined_engine
  begun-mine_once now signals env g q = elim (Result-cases (mining_work g)) [
    | inr (e, h) ↦ rw (h, mine_once) refl
    | inl ((tip, [], generation), h) ↦ rw (h, mine_once) refl
    | inl ((tip, tx ∷ txs, generation), h) ↦ rw (h, mine_once, not_empty tx txs) refl
  ]

  module _ (now : ℕ) (signals : ℕ → Signal) (env : Env) (es : List Event) (p : Process)
      (others : All (λ (e : Event). is_other e ≡ true) es) where
    -- If the miner waits: a tick, any events of the other parts, and the end of the search come
    -- to the same as those events and then `MineOnce` on the engine of the tick, handing over to
    -- the engine of the end.
    mine_tick-mine_once :
        p.mining ≡ idle
        → process_run codecs d (mine_tick now ∷ (es ++ mine_ends signals env ∷ [])) p
          ≡ record (process_run codecs d es p) {
            engine =
                mined_engine
                  (process_run codecs d es p).engine
                  (mine_once now d signals env p.engine (process_run codecs d es p).engine);
          }
    unfolding process_run process_step on_mine_tick
    mine_tick-mine_once h =
        let m = begin_mining now d (mining_work p.engine) in
        let q = process_run codecs d es p in
        let same : with_mining idle p ≡ p = ap (λ (x : Mining). with_mining x p) (sym h) in
        let begun : process_step codecs d (mine_tick now) p ≡ with_mining m p =
          rw (h, on_mine_tick) refl in
        let idle_still : q.mining ≡ idle =
          ap (λ (x : Process). x.mining)
            (ap (process_run codecs d es) (sym same) ∙ process_run-with_mining es idle p others) in
        let handed = mined_engine q.engine (mine_once now d signals env p.engine q.engine) in
        ap (process_run codecs d (es ++ mine_ends signals env ∷ [])) begun
        ∙ process_run-append es (mine_ends signals env ∷ []) (with_mining m p)
        ∙ ap (process_step codecs d (mine_ends signals env)) (process_run-with_mining es m p others)
        ∙ begun-mine_once now signals env p.engine q
        ∙ ap (λ (x : Mining). record q { engine = handed; mining = x }) (sym idle_still)

module _ (codecs : Codecs) (d : ℤ) (now : ℕ) (signals : ℕ → Signal) (env : Env) (es : List Event)
    (p : Process) (idles : p.mining ≡ idle) (others : All (λ (e : Event). is_other e ≡ true) es)
    (timely : All (λ (e : Event). clock e ≤ env.now) es) (v : IsValidEngine env.now p.engine)
    (own : d ≡ p.engine.chain_store.difficulty)
    (same_chain : (process_run codecs d es p).engine.chain_store.chain ≡ p.engine.chain_store.chain)
    (le : now ≤ env.now) (since : genesis_timestamp ≤ℤ pos (env.now + 120))
    (room : length p.engine.chain_store.chain < max_chain_blocks) where
  abbrev before : Process
  before = process_run codecs d es p

  -- On a node whose miner waits and has the difficulty of the store, whose engine satisfies the
  -- invariant and has room for a block, with clocks that do not run backwards and are not more
  -- than 120 seconds before the genesis block: if at a tick of the miner there is work, events of
  -- the other parts follow that leave the chain as it is, the search finds a block, saving it
  -- succeeds and the chain file has room, then at the end of the search the engine accepts that
  -- block, and nothing else of the node differs from what the other events made.
  pub mine_tick-Accepted :
      (tip : Block) (pending : List Transaction) (generation : ℕ) (b : Block)
      → mining_work p.engine ≡ ok (tip, pending, generation)
      → 1 ≤ length pending
      → solve signals (candidate now d tip pending) ≡ some (ok tt, b)
      → AllSucceed env.io
      → length (encode_chain (p.engine.chain_store.chain ++ b ∷ [])) ≤ max_chain_bytes
      → (t : Engine) × (process_run codecs d (mine_tick now ∷ (es ++ mine_ends signals env ∷ [])) p
          ≡ record (process_run codecs d es p) { engine = t })
        × Accepted b (process_run codecs d es p).engine t
  unfolding mined_engine
  mine_tick-Accepted tip pending generation b work some_pending solved io fits =
      let w = Advances.valid (process_run-Advances env.now codecs d es p timely v) in
      let (t, mined, accepted) =
        mine_once-Accepted now d signals env p.engine before.engine v w own same_chain le since room
          tip pending generation b work some_pending solved io fits in
      (
        t,
        mine_tick-mine_once codecs d now signals env es p others idles
            ∙ ap (λ r. record before { engine = mined_engine before.engine r }) mined,
        accepted,
      )
