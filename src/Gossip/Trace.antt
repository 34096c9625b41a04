-- ===== src/Gossip/Trace.antt =====
-- Runs of the engine: any sequence of calls by the HTTP handlers, the miner, the sync and the worker,
-- each under the engine's lock.
pub mod Syncs
use distributed_p2p_ledger.Base.{
  ℕ, ◌≤◌, ◌≡◌, ◌∙◌, ap, refl, inl, Bool, false, List, ◌∷◌, Bytes, length, arith,
}
use distributed_p2p_ledger.Models.Transaction.{Transaction}
use distributed_p2p_ledger.Models.Block.{Block}
use distributed_p2p_ledger.Gossip.{
  Engine, Env, Outgoing, Answer, submit_transaction, handle_incoming_block, adopt, request_sync,
  advance_peer, resolve_conflicts,
}
use distributed_p2p_ledger.Gossip.Invariant.{
  IsValidEngine, SameHoldings, SameHoldings-IsValidEngine, SameHoldings-knows,
  request_sync-SameHoldings,
}
use distributed_p2p_ledger.Gossip.Receive.{handle_incoming_block-IsValidEngine}
use distributed_p2p_ledger.Gossip.Receive.Keeps.{
  handle_incoming_block-knows, handle_incoming_block-Progresses,
}
use distributed_p2p_ledger.Gossip.Sync.{
  Advances, Advances-refl, Advances-trans, submit_transaction-Advances, adopt-Advances,
  resolve_conflicts-Advances, advance_peer-Advances,
}

-- The worker takes the first job from its channel.
abbrev pub take_job : List Outgoing → Engine → Engine
take_job jobs g = record g { jobs = jobs }

-- `Run` empties the channel `syncNeeded` before it syncs.
abbrev pub clear_sync : Engine → Engine
clear_sync g = record g { sync_needed = false }

-- One call, or the part of a sync that moves on to the next peer (`begins`). No clock is past the horizon.
pub data Step (horizon : ℕ) : Engine → Engine → Type 0 where
  submits :
      {g : Engine} (env : Env) (tx : Transaction) → Step horizon g (submit_transaction env tx g).1
  receives :
      {g : Engine} (env : Env) (b : Block)
      → env.now ≤ horizon
      → Step horizon g (handle_incoming_block env b g).1
  adopts :
      {g : Engine} (env : Env) (chain : List Block)
      → env.now ≤ horizon
      → Step horizon g (adopt env chain g).1
  begins : {g : Engine} → Step horizon g (advance_peer g)
  requests : {g : Engine} → Step horizon g (request_sync g)
  clears : {g : Engine} → Step horizon g (clear_sync g)
  takes :
      {g : Engine} (job : Outgoing) (jobs : List Outgoing)
      → g.jobs ≡ job ∷ jobs
      → Step horizon g (take_job jobs g)

pub data Run (horizon : ℕ) (g : Engine) : Engine → Type 0 where
  here : Run horizon g g
  next : {t u : Engine} → Run horizon g t → Step horizon t u → Run horizon g u

pub Run-trans : {horizon : ℕ} {g t u : Engine} → Run horizon g t → Run horizon t u → Run horizon g u
Run-trans r here = r
Run-trans r (next r' step) = next (Run-trans r r') step

module _ (horizon : ℕ) where
  same-Advances : (g t : Engine) → SameHoldings g t → IsValidEngine horizon g → Advances horizon g t
  same-Advances g t same v = record {
    valid = SameHoldings-IsValidEngine horizon g t same v;
    known = λ k h. SameHoldings-knows g t k same ∙ h;
    chain = rw same.store (inl refl);
  }

  clear_sync-SameHoldings : (g : Engine) → SameHoldings g (clear_sync g)
  clear_sync-SameHoldings g = record {
    store = refl;
    mempool = refl;
    generation = refl;
    peers = refl;
    next_peer = refl;
    jobs = λ h. h;
  }

  take_job-SameHoldings :
      (job : Outgoing) (jobs : List Outgoing) (g : Engine)
      → g.jobs ≡ job ∷ jobs
      → SameHoldings g (take_job jobs g)
  take_job-SameHoldings job jobs g e = record {
    store = refl;
    mempool = refl;
    generation = refl;
    peers = refl;
    next_peer = refl;
    jobs = λ h. omega (arith, ap length e);
  }

  Step-Advances : {g t : Engine} → Step horizon g t → IsValidEngine horizon g → Advances horizon g t
  Step-Advances {g} {t} (submits env tx) v = submit_transaction-Advances horizon env tx g v
  Step-Advances {g} {t} (receives env b le) v = record {
    valid = handle_incoming_block-IsValidEngine env b g le v;
    known = λ k h. handle_incoming_block-knows env b g k v h;
    chain = handle_incoming_block-Progresses env b g v;
  }
  Step-Advances {g} {t} (adopts env chain le) v = adopt-Advances horizon env chain g le v
  Step-Advances {g} {t} begins v = advance_peer-Advances horizon g v
  Step-Advances {g} {t} requests v =
      same-Advances g (request_sync g) (request_sync-SameHoldings g) v
  Step-Advances {g} {t} clears v = same-Advances g (clear_sync g) (clear_sync-SameHoldings g) v
  Step-Advances {g} {t} (takes job jobs e) v =
      same-Advances g (take_job jobs g) (take_job-SameHoldings job jobs g e) v

  -- In every run, of submitted transactions, received blocks, adopted chains and what the sync
  -- and the workers do besides, from an engine that satisfies the invariant, and in which no
  -- clock reading is past the horizon: the invariant holds at the end, every ID that was pending
  -- or confirmed is pending or confirmed, and the chain is the same or preferred to the one
  -- before.
  pub Run-Advances :
      {g t : Engine} → Run horizon g t → IsValidEngine horizon g → Advances horizon g t
  Run-Advances {g} {t} here v = Advances-refl horizon g v
  Run-Advances {g} {t} (next run step) v =
      let before = Run-Advances run v in Advances-trans before (Step-Advances step before.valid)
