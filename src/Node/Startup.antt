-- ===== src/Node/Startup.antt =====
-- `Run` and `Main`: a node is started, serves, and is shut down.
pub mod Clean
pub mod Exit
pub mod Serves
pub mod Durable
use distributed_p2p_ledger.Base.{
  ℕ, ◌==◌, ◌≡◌, refl, ap, Bool, true, false, not, List, [], ◌∷◌, ◌++◌, Bytes, Option, none, some, ℤ,
  if◌then◌else◌, Error, help_requested, initialize_chain, unhealthy_status, no_response,
  port_in_use, server_closed, shutdown_timed_out, Result, ok, err, reject,
}
use distributed_p2p_ledger.Mempool.{new_mempool}
use distributed_p2p_ledger.Storage.{Store}
use distributed_p2p_ledger.Storage.ChainFile.{Disk}
use distributed_p2p_ledger.Storage.Start.{Decoder, StartFaults, new_file_chain_storage}
use distributed_p2p_ledger.Gossip.{Engine}
use distributed_p2p_ledger.Gossip.Peers.{new_gossip_engine}
use distributed_p2p_ledger.Node.Config.{Parsers, NodeConfig, parse_config}
use distributed_p2p_ledger.Node.Process.{Codecs, Event, Process, process_run, start_process}

-- What ends the `select` of `Run`: a signal, or the end of `Serve`, which always returns an error.
pub data Stop : Type 0 where
  signaled : Stop
  serve_returns : Error → Stop

-- What the world does while the node runs.
pub record World : Type 0 where
  pub parsers : Parsers
  pub codecs : Codecs
  -- the time of the start, the chain file's decoder and the calls of the package os
  pub now : ℕ
  pub json : Decoder
  pub io : StartFaults
  -- the content of the peers file, if it can be read
  pub peers_content : Option Bytes
  -- the status of the answer to GET /healthz, if one comes
  pub health : Option ℕ
  -- whether net.Listen succeeds
  pub listens : Bool
  pub events : List Event
  pub stop : Stop
  -- whether server.Shutdown is done within its five seconds
  pub shuts_down : Bool

-- What `Run` does with its listener and its two workers; a call of server.Shutdown with whether it is
-- done within its five seconds.
pub data Action : Type 0 where
  binds starts_sync starts_miner serves : Action
  shuts_server : Bool → Action
  closes_server cancels_workers awaits_workers : Action

-- `engine` is what the node held when it ended, if it came to serve.
pub record Outcome : Type 0 where
  pub result : Result (Unit {0})
  pub engine : Option Engine
  pub disk : Disk
  pub actions : List Action

-- The part of `Run` for -healthcheck.
unfoldable pub check_health : Option ℕ → Result (Unit {0})
check_health none = err no_response
check_health (some code) = reject (not (code == 200)) (unhealthy_status code)

-- An engine on the store that was opened.
unfoldable pub attach : World → NodeConfig → Result Store × Disk → Result Engine × Disk
attach w c (err e, disk) = (err (initialize_chain e), disk)
attach w c (ok cs, disk) =
    (new_gossip_engine w.parsers.url c.peers_file w.peers_content c.node_addr new_mempool cs, disk)

-- The store and the engine that `Run` makes.
unfoldable pub start_engine : World → NodeConfig → Disk → Result Engine × Disk
unfolding attach
start_engine w c disk =
    attach w c (new_file_chain_storage w.now w.json (c.required_zeros ∷ []) w.io disk)

-- errors.Is(err, http.ErrServerClosed)
unfoldable pub is_server_closed : Error → Bool
is_server_closed server_closed = true
is_server_closed _ = false

abbrev pub shutdown_result : Bool → Result (Unit {0})
shutdown_result shuts_down = reject (not shuts_down) shutdown_timed_out

unfoldable pub stop_result : Stop → Bool → Result (Unit {0})
stop_result signaled shuts_down = shutdown_result shuts_down
stop_result (serve_returns e) shuts_down =
    if is_server_closed e then shutdown_result shuts_down else err e

-- The end of `Run`: the server is shut down, or closed if that takes too long, and then the workers.
unfoldable pub stop_actions : Bool → List Action
stop_actions true = shuts_server true ∷ cancels_workers ∷ awaits_workers ∷ []
stop_actions false = shuts_server false ∷ closes_server ∷ cancels_workers ∷ awaits_workers ∷ []

abbrev pub served : World → NodeConfig → Engine → Engine
served w c g =
    (process_run w.codecs c.required_zeros w.events
      (start_process c.required_zeros c.mine_every g)).engine

abbrev pub not_served : Result (Unit {0}) → Disk → Outcome
not_served r disk = record { result = r; engine = none; disk = disk; actions = [] }

-- `Run` behind net.Listen.
abbrev pub serving : World → NodeConfig → Engine → Outcome
serving w c g = record {
  result = stop_result w.stop w.shuts_down;
  engine = some (served w c g);
  disk = (served w c g).chain_store.disk;
  actions = binds ∷ starts_sync ∷ starts_miner ∷ serves ∷ stop_actions w.shuts_down;
}

-- `Run` with its engine: a listener comes before the workers.
unfoldable pub run_engine : World → NodeConfig → Engine → Outcome
run_engine w c g =
    if not w.listens then not_served (err port_in_use) g.chain_store.disk else serving w c g

unfoldable pub run_started : World → NodeConfig → Result Engine × Disk → Outcome
unfolding run_engine
run_started w c (err e, disk) = not_served (err e) disk
run_started w c (ok g, disk) = run_engine w c g

unfoldable pub run_node : World → NodeConfig → Disk → Outcome
unfolding run_started
run_node w c disk =
    if c.healthcheck
    then not_served (check_health w.health) disk
    else run_started w c (start_engine w c disk)

-- errors.Is(err, flag.ErrHelp)
unfoldable pub is_help : Error → Bool
is_help help_requested = true
is_help _ = false

abbrev pub exit_code : Result (Unit {0}) → ℕ
exit_code (err e) = 1
exit_code (ok _) = 0

-- `Main`: the exit status and what is left on the disk.
unfoldable pub main_node : World → List Bytes → (Bytes → Bytes) → Disk → ℕ × Disk
main_node w args lookup disk = elim (parse_config w.parsers args lookup) [
  | err e ↦ (if is_help e then 0 else 1, disk)
  | ok c ↦ (exit_code (run_node w c disk).result, (run_node w c disk).disk)
]

module _ (w : World) (c : NodeConfig) (disk : Disk) where
  pub run_node-checks :
      c.healthcheck ≡ true → run_node w c disk ≡ not_served (check_health w.health) disk
  unfolding run_node
  run_node-checks h =
      ap
        (λ (b : Bool).
          if b
          then not_served (check_health w.health) disk
          else run_started w c (start_engine w c disk))
        h

  pub run_node-starts :
      c.healthcheck ≡ false → run_node w c disk ≡ run_started w c (start_engine w c disk)
  unfolding run_node
  run_node-starts h =
      ap
        (λ (b : Bool).
          if b
          then not_served (check_health w.health) disk
          else run_started w c (start_engine w c disk))
        h

pub run_engine-refused :
    (w : World) (c : NodeConfig) (g : Engine)
    → w.listens ≡ false
    → run_engine w c g ≡ not_served (err port_in_use) g.chain_store.disk
unfolding run_engine
run_engine-refused w c g h = rw h refl
