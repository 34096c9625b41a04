-- ===== src/Node/Process/Safe.antt =====
-- Every event of a node is a run of the engine's calls.
use distributed_p2p_ledger.Base.{
  ℕ, ◌≤◌, ◌≡◌, refl, inl, inr, Bool, true, false, List, [], ◌∷◌, All, Option, none, some, ℤ, Result,
  Result-cases, ok, err, ◌⊎◌,
}
use distributed_p2p_ledger.Json.{JsonDecoder}
use distributed_p2p_ledger.Models.Transaction.{Transaction, validate_transaction}
use distributed_p2p_ledger.Models.Block.{Block, validate_block}
use distributed_p2p_ledger.Gossip.{Engine, Env, Outgoing}
use distributed_p2p_ledger.Gossip.Invariant.{IsValidEngine}
use distributed_p2p_ledger.Gossip.Sync.{Advances}
use distributed_p2p_ledger.Gossip.Trace.{
  Run, Run-trans, Run-Advances, here, next, submits, receives, begins, clears, takes,
}
use distributed_p2p_ledger.Gossip.Trace.Syncs.{sync_chain-Run}
use distributed_p2p_ledger.Gossip.Http.{Response, get, max_response_bytes}
use distributed_p2p_ledger.Miner.{Signal, solve, hand_over}
use distributed_p2p_ledger.Api.{
  Request, decode, accept, add_transaction, gossip_receive, receive_block,
}
use distributed_p2p_ledger.Api.Router.{
  Decoders, Route, post_transaction, list_transactions, show_transaction, post_gossip, post_block,
  show_chain, show_mempool, show_health, show_status, serve, serve_route,
}
use distributed_p2p_ledger.Node.Process.{
  Codecs, Sync, Mining, Process, Event, asks_chain, asks_pool, submitting, starting, waiting,
  syncing, refused, idle, solving, request, sync_tick, sync_wanted, deadline, chain_comes,
  pool_comes, pool_submits, mine_tick, mine_ends, job_taken, on_tick, on_wanted, on_deadline,
  on_chain, on_pool, on_submit, on_mine_tick, on_mined, mined_engine, on_jobs, process_step,
  process_run,
}

Sum-cases :
    {A : Type 0} {B : Type 0} (s : A ⊎ B) → ((a : A) × (s ≡ inl a)) ⊎ ((b : B) × (s ≡ inr b))
Sum-cases (inl a) = inl (a, refl)
Sum-cases (inr b) = inr (b, refl)

-- The clock of the engine in an event.
unfoldable pub clock : Event → ℕ
clock (request call) = call.env.now
clock (chain_comes env answer) = env.now
clock (mine_ends signals env) = env.now
clock _ = 0

module _ (horizon : ℕ) where
  accept-Run :
      (json : JsonDecoder Transaction) (incoming : Bool) (env : Env) (req : Request) (g : Engine)
      → Run horizon g (accept json incoming env req g).1
  unfolding accept
  accept-Run json incoming env req g = elim (Sum-cases (decode json req)) [
    | inl (refusal, h) ↦ rw (h, accept) here
    | inr (tx, h) ↦ elim (Result-cases (validate_transaction tx)) [
      | inl (_, h') ↦ rw (h, h', accept) (next here (submits env tx))
      | inr (e, h') ↦ rw (h, h', accept) here
    ]
  ]

  receive_block-Run :
      (json : JsonDecoder Block) (now : ℕ) (env : Env) (req : Request) (g : Engine)
      → env.now ≤ horizon
      → Run horizon g (receive_block json now env req g).1
  unfolding receive_block
  receive_block-Run json now env req g le = elim (Sum-cases (decode json req)) [
    | inl (refusal, h) ↦ rw (h, receive_block) here
    | inr (b, h) ↦ elim (Result-cases (validate_block now b g.chain_store.difficulty)) [
      | inl (_, h') ↦ rw (h, h', receive_block) (next here (receives env b le))
      | inr (e, h') ↦ rw (h, h', receive_block) here
    ]
  ]

  serve_route-Run :
      (json : Decoders) (r : Route) (now : ℕ) (env : Env) (req : Request) (g : Engine)
      → env.now ≤ horizon
      → Run horizon g (serve_route json r now env req g).1
  unfolding serve_route add_transaction gossip_receive
  serve_route-Run json post_transaction now env req g le =
      accept-Run json.transaction false env req g
  serve_route-Run json post_gossip now env req g le = accept-Run json.transaction true env req g
  serve_route-Run json post_block now env req g le = receive_block-Run json.block now env req g le
  serve_route-Run json list_transactions now env req g le = here
  serve_route-Run json (show_transaction id) now env req g le = here
  serve_route-Run json show_chain now env req g le = here
  serve_route-Run json show_mempool now env req g le = here
  serve_route-Run json show_health now env req g le = here
  serve_route-Run json show_status now env req g le = here

  hand_over-Run :
      (env : Env) (r : Option (Result (Unit {0}) × Block)) (g : Engine)
      → env.now ≤ horizon
      → Run horizon g (mined_engine g (hand_over env g r))
  unfolding hand_over mined_engine
  hand_over-Run env none g le = here
  hand_over-Run env (some (err e, b)) g le = here
  hand_over-Run env (some (ok _, b)) g le = next here (receives env b le)

  on_jobs-Run : (g : Engine) (jobs : List Outgoing) → g.jobs ≡ jobs → Run horizon g (on_jobs g jobs)
  unfolding on_jobs
  on_jobs-Run g [] e = here
  on_jobs-Run g (job ∷ jobs) e = next here (takes job jobs e)

  -- Each part of the node.
  module _ (p : Process) where
    on_tick-Run : (s : Sync) → Run horizon p.engine (on_tick p s).engine
    unfolding on_tick
    on_tick-Run starting = next here begins
    on_tick-Run waiting = next here begins
    on_tick-Run (syncing peers stage) = here

    on_wanted-Run : (b : Bool) (s : Sync) → Run horizon p.engine (on_wanted p b s).engine
    unfolding on_wanted
    on_wanted-Run true waiting = next (next here clears) begins
    on_wanted-Run true starting = here
    on_wanted-Run true (syncing peers stage) = here
    on_wanted-Run false s = here

    on_deadline-Run : (s : Sync) → Run horizon p.engine (on_deadline p s).engine
    unfolding on_deadline
    on_deadline-Run starting = here
    on_deadline-Run waiting = here
    on_deadline-Run (syncing peers asks_chain) = here
    on_deadline-Run (syncing peers asks_pool) = here
    on_deadline-Run (syncing peers (submitting txs)) = here

    on_chain-Run :
        (codecs : Codecs) (env : Env) (answer : Option Response) (s : Sync)
        → env.now ≤ horizon
        → Run horizon p.engine (on_chain codecs env answer p s).engine
    unfolding on_chain
    on_chain-Run codecs env answer starting le = here
    on_chain-Run codecs env answer waiting le = here
    on_chain-Run codecs env answer (syncing peers asks_chain) le =
        sync_chain-Run horizon env (get codecs.chain max_response_bytes answer) p.engine le
    on_chain-Run codecs env answer (syncing peers asks_pool) le = here
    on_chain-Run codecs env answer (syncing peers (submitting txs)) le = here

    on_pool-Run :
        (codecs : Codecs) (answer : Option Response) (s : Sync)
        → Run horizon p.engine (on_pool codecs answer p s).engine
    unfolding on_pool
    on_pool-Run codecs answer starting = here
    on_pool-Run codecs answer waiting = here
    on_pool-Run codecs answer (syncing peers asks_chain) = here
    on_pool-Run codecs answer (syncing peers asks_pool) = here
    on_pool-Run codecs answer (syncing peers (submitting txs)) = here

    on_submit-Run : (env : Env) (s : Sync) → Run horizon p.engine (on_submit env p s).engine
    unfolding on_submit
    on_submit-Run env starting = here
    on_submit-Run env waiting = here
    on_submit-Run env (syncing peers asks_chain) = here
    on_submit-Run env (syncing peers asks_pool) = here
    on_submit-Run env (syncing peers (submitting [])) = here
    on_submit-Run env (syncing peers (submitting (tx ∷ txs))) = next here (submits env tx)

    on_mine_tick-Run :
        (now : ℕ) (d : ℤ) (m : Mining) → Run horizon p.engine (on_mine_tick now d p m).engine
    unfolding on_mine_tick
    on_mine_tick-Run now d refused = here
    on_mine_tick-Run now d idle = here
    on_mine_tick-Run now d (solving b) = here

    on_mined-Run :
        (signals : ℕ → Signal) (env : Env) (m : Mining)
        → env.now ≤ horizon
        → Run horizon p.engine (on_mined signals env p m).engine
    unfolding on_mined
    on_mined-Run signals env refused le = here
    on_mined-Run signals env idle le = here
    on_mined-Run signals env (solving b) le = hand_over-Run env (solve signals b) p.engine le

  module _ (codecs : Codecs) (d : ℤ) where
    process_step-Run :
        (e : Event) (p : Process)
        → clock e ≤ horizon
        → Run horizon p.engine (process_step codecs d e p).engine
    unfolding process_step clock serve
    process_step-Run (request call) p le =
        serve_route-Run codecs.requests call.route call.now call.env call.request p.engine le
    process_step-Run sync_tick p le = on_tick-Run p p.sync
    process_step-Run sync_wanted p le = on_wanted-Run p p.engine.sync_needed p.sync
    process_step-Run deadline p le = on_deadline-Run p p.sync
    process_step-Run (chain_comes env answer) p le = on_chain-Run p codecs env answer p.sync le
    process_step-Run (pool_comes answer) p le = on_pool-Run p codecs answer p.sync
    process_step-Run (pool_submits env) p le = on_submit-Run p env p.sync
    process_step-Run (mine_tick now) p le = on_mine_tick-Run p now d p.mining
    process_step-Run (mine_ends signals env) p le = on_mined-Run p signals env p.mining le
    process_step-Run job_taken p le = on_jobs-Run p.engine p.engine.jobs refl

    pub process_run-Run :
        (es : List Event) (p : Process)
        → All (λ (e : Event). clock e ≤ horizon) es
        → Run horizon p.engine (process_run codecs d es p).engine
    unfolding process_run
    process_run-Run [] p le = here
    process_run-Run (e ∷ es) p le =
        Run-trans (process_step-Run e p le.0) (process_run-Run es (process_step codecs d e p) le.1)

    -- So that the invariant holds and nothing that was held is lost.
    pub process_run-Advances :
        (es : List Event) (p : Process)
        → All (λ (e : Event). clock e ≤ horizon) es
        → IsValidEngine horizon p.engine
        → Advances horizon p.engine (process_run codecs d es p).engine
    process_run-Advances es p le v = Run-Advances horizon (process_run-Run es p le) v
