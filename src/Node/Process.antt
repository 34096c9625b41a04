-- ===== src/Node/Process.antt =====
-- A running node: the HTTP server, the loop of the gossip engine's `Run`, the miner's `Start` and the
-- workers, which all act on one engine. An event is what one of them does under the engine's lock, so
-- that a list of events is an interleaving of all of them.
pub mod Safe
pub mod Schedule
pub mod Round
pub mod CatchUp
use distributed_p2p_ledger.Base.{
  ℕ, ◌≤◌, Bool, true, false, ◌&&◌, List, [], ◌∷◌, Bytes, length, leb, Option, none, some, ℤ, pos,
  ltb_ℤ, is_ok, if◌then◌else◌, Result, ok, err, elements,
}
use distributed_p2p_ledger.Json.{JsonDecoder}
use distributed_p2p_ledger.Models.Transaction.{Transaction}
use distributed_p2p_ledger.Models.Block.{Block, check_difficulty}
use distributed_p2p_ledger.Mempool.{max_pending}
use distributed_p2p_ledger.Gossip.{
  Engine, Env, Outgoing, mining_work, submit_transaction, sync_chain, rotated_peers, advance_peer,
}
use distributed_p2p_ledger.Gossip.Trace.{clear_sync, take_job}
use distributed_p2p_ledger.Gossip.Http.{Response, get, max_response_bytes, max_pool_bytes}
use distributed_p2p_ledger.Miner.{Signal, candidate, solve, hand_over}
use distributed_p2p_ledger.Api.Router.{Call, Decoders, serve}

-- The decoders of what requests and responses hold.
pub record Codecs : Type 0 where
  pub requests : Decoders
  pub chain : JsonDecoder (List Block)
  pub pool : JsonDecoder (List Transaction)

-- What the sync does next with the first peer that is left: ask for its chain, ask for its pool, or
-- submit what is left of that pool.
pub data Stage : Type 0 where
  asks_chain : Stage
  asks_pool : Stage
  submitting : List Transaction → Stage

-- The loop of `Run`: before its first sync, in its `select`, or in `ResolveConflicts`.
pub data Sync : Type 0 where
  starting : Sync
  waiting : Sync
  syncing : List Bytes → Stage → Sync

-- The loop of `Start`: refused by its configuration, in its `select`, or solving a block.
pub data Mining : Type 0 where
  refused : Mining
  idle : Mining
  solving : Block → Mining

pub record Process : Type 0 where
  pub engine : Engine
  pub sync : Sync
  pub mining : Mining

pub data Event : Type 0 where
  -- a request to the HTTP server
  request : Call → Event
  -- the ticker of `Run`, and a receive from `syncNeeded`
  sync_tick : Event
  sync_wanted : Event
  -- the turn of the loop over the peers finds the deadline passed
  deadline : Event
  -- the responses to /chain and /mempool, and the submission of one transaction
  chain_comes : Env → Option Response → Event
  pool_comes : Option Response → Event
  pool_submits : Env → Event
  -- the ticker of `Start`, at a time, and the end of its search
  mine_tick : ℕ → Event
  mine_ends : (ℕ → Signal) → Env → Event
  -- a worker receives a job
  job_taken : Event

-- After a peer, the next one; after the last, the sync is over.
unfoldable pub after_peer : List Bytes → Sync
after_peer [] = waiting
after_peer (peer ∷ []) = waiting
after_peer (peer ∷ next ∷ peers) = syncing (next ∷ peers) asks_chain

abbrev pub first_peer : List Bytes → Sync
first_peer [] = waiting
first_peer (peer ∷ peers) = syncing (peer ∷ peers) asks_chain

abbrev pub begin_sync : Process → Process
begin_sync p = record p {
  engine = advance_peer p.engine;
  sync = first_peer (rotated_peers p.engine);
}

-- The transactions of a pool that came, unless there are too many.
unfoldable pub accepted_pool : Result (List Transaction) → List Transaction
accepted_pool (err e) = []
accepted_pool (ok txs) = if leb (length txs) max_pending then txs else []

abbrev pub submit_stage : List Bytes → List Transaction → Sync
submit_stage peers [] = after_peer peers
submit_stage peers (tx ∷ txs) = syncing peers (submitting (tx ∷ txs))

-- The first sync of `Run`, or one that its ticker asks for.
unfoldable pub on_tick : Process → Sync → Process
on_tick p starting = begin_sync p
on_tick p waiting = begin_sync p
on_tick p (syncing peers stage) = p

unfoldable pub on_wanted : Process → Bool → Sync → Process
on_wanted p true waiting = begin_sync (record p { engine = clear_sync p.engine })
on_wanted p _ _ = p

unfoldable pub on_deadline : Process → Sync → Process
on_deadline p (syncing peers asks_chain) = record p { sync = waiting }
on_deadline p _ = p

unfoldable pub on_chain : Codecs → Env → Option Response → Process → Sync → Process
on_chain codecs env answer p (syncing peers asks_chain) = record p {
  engine = sync_chain env (get codecs.chain max_response_bytes answer) p.engine;
  sync = syncing peers asks_pool;
}
on_chain codecs env answer p _ = p

unfoldable pub on_pool : Codecs → Option Response → Process → Sync → Process
on_pool codecs answer p (syncing peers asks_pool) = record p {
  sync = submit_stage peers (accepted_pool (get codecs.pool max_pool_bytes answer));
}
on_pool codecs answer p _ = p

unfoldable pub on_submit : Env → Process → Sync → Process
on_submit env p (syncing peers (submitting (tx ∷ txs))) = record p {
  engine = (submit_transaction env tx p.engine).1;
  sync = submit_stage peers txs;
}
on_submit env p _ = p

-- What a tick of the miner makes of its work: nothing without pending transactions.
unfoldable pub begin_mining : ℕ → ℤ → Result (Block × List Transaction × ℕ) → Mining
begin_mining now difficulty (err e) = idle
begin_mining now difficulty (ok (tip, [], generation)) = idle
begin_mining now difficulty (ok (tip, tx ∷ txs, generation)) =
    solving (candidate now difficulty tip (tx ∷ txs))

unfoldable pub on_mine_tick : ℕ → ℤ → Process → Mining → Process
unfolding begin_mining
on_mine_tick now difficulty p idle = record p {
  mining = begin_mining now difficulty (mining_work p.engine);
}
on_mine_tick now difficulty p _ = p

-- The engine after `MineOnce`, whose error is only logged.
unfoldable pub mined_engine : Engine → Option (Result (Unit {0}) × Engine) → Engine
mined_engine g none = g
mined_engine g (some (r, t)) = t

unfoldable pub on_mined : (ℕ → Signal) → Env → Process → Mining → Process
on_mined signals env p (solving b) = record p {
  engine = mined_engine p.engine (hand_over env p.engine (solve signals b));
  mining = idle;
}
on_mined signals env p _ = p

unfoldable pub on_jobs : Engine → List Outgoing → Engine
on_jobs g [] = g
on_jobs g (job ∷ jobs) = take_job jobs g

-- One event, on a node with this mining difficulty. An event for which the node is not ready does
-- nothing.
unfoldable pub process_step : Codecs → ℤ → Event → Process → Process
process_step codecs d (request call) p = record p {
  engine = (serve codecs.requests call p.engine).1;
}
process_step codecs d sync_tick p = on_tick p p.sync
process_step codecs d sync_wanted p = on_wanted p p.engine.sync_needed p.sync
process_step codecs d deadline p = on_deadline p p.sync
process_step codecs d (chain_comes env answer) p = on_chain codecs env answer p p.sync
process_step codecs d (pool_comes answer) p = on_pool codecs answer p p.sync
process_step codecs d (pool_submits env) p = on_submit env p p.sync
process_step codecs d (mine_tick now) p = on_mine_tick now d p p.mining
process_step codecs d (mine_ends signals env) p = on_mined signals env p p.mining
process_step codecs d job_taken p = record p { engine = on_jobs p.engine p.engine.jobs }

unfoldable pub process_run : Codecs → ℤ → List Event → Process → Process
process_run codecs d [] p = p
process_run codecs d (event ∷ events) p =
    process_run codecs d events (process_step codecs d event p)

-- `Start` refuses a difficulty out of range and an interval that is not positive.
unfoldable pub start_mining : ℤ → ℤ → Mining
start_mining difficulty interval =
    if is_ok (check_difficulty difficulty) && ltb_ℤ (pos 0) interval then idle else refused

abbrev pub start_process : ℤ → ℤ → Engine → Process
start_process difficulty interval g = record {
  engine = g;
  sync = starting;
  mining = start_mining difficulty interval;
}
