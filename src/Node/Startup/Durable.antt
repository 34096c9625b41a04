-- ===== src/Node/Startup/Durable.antt =====
-- What a node leaves on the disk is found by the next start.
use distributed_p2p_ledger.Base.{ℕ, arith, true, ◌≤◌, ◌≡◌, inl, inr, All, some, ℤ, ok, ◌∷◌, []}
use distributed_p2p_ledger.Storage.{Store}
use distributed_p2p_ledger.Storage.ChainFile.{Disk}
use distributed_p2p_ledger.Storage.Start.{Decoder, StartFaults, new_file_chain_storage}
use distributed_p2p_ledger.Storage.Restart.{ReadsBack}
use distributed_p2p_ledger.Storage.Durable.{
  IsStored, add_block-IsStored, replace_chain-IsStored, start-IsStored, reload,
}
use distributed_p2p_ledger.Gossip.{Engine, advance_peer, request_sync}
use distributed_p2p_ledger.Gossip.Invariant.{IsValidEngine, IsValidEngine-later}
use distributed_p2p_ledger.Gossip.Submit.{chain-submit_transaction}
use distributed_p2p_ledger.Gossip.Receive.{handle_incoming_block-store}
use distributed_p2p_ledger.Gossip.Adopt.Keeps.{adopt-store}
use distributed_p2p_ledger.Gossip.Trace.{
  Step, Run, Run-Advances, here, next, submits, receives, adopts, begins, requests, clears, takes,
}
use distributed_p2p_ledger.Node.Config.{NodeConfig}
use distributed_p2p_ledger.Node.Process.{Event, start_process}
use distributed_p2p_ledger.Node.Process.Safe.{clock, process_run-Run}
use distributed_p2p_ledger.Node.Startup.{World, start_engine, run_node, served}
use distributed_p2p_ledger.Node.Startup.Serves.{
  run_node-Served, start_engine-IsValidEngine, start_engine-IsFresh,
}

module _ (horizon : ℕ) (json : Decoder) (d : ℤ) where
  Step-IsStored :
      {g t : Engine}
      → Step horizon g t
      → IsValidEngine horizon g
      → IsStored json d g.chain_store
      → IsStored json d t.chain_store
  unfolding advance_peer request_sync
  Step-IsStored {g} {t} (submits env tx) v w = rw (chain-submit_transaction env tx g) w
  Step-IsStored {g} {t} (receives env b le) v w = elim (handle_incoming_block-store env b g) [
    | inl same ↦ rw same w
    | inr added ↦ rw added (add_block-IsStored json env.now env.io g.chain_store le v.store w b)
  ]
  Step-IsStored {g} {t} (adopts env chain le) v w = elim (adopt-store env chain g v) [
    | inl same ↦ rw same w
    | inr replaced ↦
        rw replaced (replace_chain-IsStored json env.now env.io g.chain_store le v.store w chain)
  ]
  Step-IsStored {g} {t} begins v w =
      let same : (advance_peer g).chain_store ≡ g.chain_store = ground arith in rw same w
  Step-IsStored {g} {t} requests v w = w
  Step-IsStored {g} {t} clears v w = w
  Step-IsStored {g} {t} (takes job jobs e) v w = w

  Run-IsStored :
      {g t : Engine}
      → Run horizon g t
      → IsValidEngine horizon g
      → IsStored json d g.chain_store
      → IsStored json d t.chain_store
  Run-IsStored {g} {t} here v w = w
  Run-IsStored {g} {t} (next run step) v w =
      Step-IsStored step (Run-Advances horizon run v).valid (Run-IsStored run v w)

module _ (w : World) (c : NodeConfig) (disk : Disk) where
  start_engine-IsStored :
      (g : Engine)
      → (start_engine w c disk).0 ≡ ok g
      → IsStored w.json c.required_zeros g.chain_store
  start_engine-IsStored g h =
      let (cs, opens, fresh) = start_engine-IsFresh w c disk g h in
      rw fresh.store (start-IsStored w.json w.now (c.required_zeros ∷ []) w.io disk opens)

  -- What was served, from an engine that was started.
  served-IsStored :
      (horizon : ℕ) (g : Engine)
      → w.now ≤ horizon
      → All (λ (e : Event). clock e ≤ horizon) w.events
      → (start_engine w c disk).0 ≡ ok g
      → IsStored w.json c.required_zeros (served w c g).chain_store
  served-IsStored horizon g le timely starts =
      Run-IsStored horizon w.json c.required_zeros
        (process_run-Run horizon w.codecs c.required_zeros w.events
          (start_process c.required_zeros c.mine_every g) timely)
        (IsValidEngine-later w.now horizon g le (start_engine-IsValidEngine w c disk g starts))
        (start_engine-IsStored g starts)

  -- What a node that came to serve has confirmed when it ends, in a run with no clock reading
  -- past the horizon, is found by the next start: with the same difficulty, at a time that is not
  -- before the horizon, if the decoder reads back the JSON of that chain and os.Stat and
  -- os.ReadFile succeed, `NewFileChainStorage` on the disk that is left returns a store with the
  -- same chain, and leaves the disk as it is.
  pub run_node-durable :
      (horizon later : ℕ) (io : StartFaults) (t : Engine)
      → w.now ≤ horizon
      → horizon ≤ later
      → All (λ (e : Event). clock e ≤ horizon) w.events
      → (run_node w c disk).engine ≡ some t
      → ReadsBack w.json t.chain_store.chain
      → io.stat ≡ true
      → io.read ≡ true
      → (s : Store) × (new_file_chain_storage later w.json
            (c.required_zeros ∷ [])
            io
            (run_node w c disk).disk
          ≡ (ok s, (run_node w c disk).disk))
        × (s.chain ≡ t.chain_store.chain)
  run_node-durable horizon later io t le le' timely h reads stat read =
      let r = run_node-Served w c disk horizon t le timely h in
      let stored : IsStored w.json c.required_zeros t.chain_store =
        rw (← r.same) (served-IsStored horizon r.first le timely r.starts) in
      rw r.disk_of (
        reload w.json horizon later io t.chain_store le' r.advances.valid.store stored reads stat
          read)
