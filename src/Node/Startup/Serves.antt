-- ===== src/Node/Startup/Serves.antt =====
-- The engine that `Run` starts with, and what it holds when the node ends.
use distributed_p2p_ledger.Base.{
  ℕ, ◌≤◌, ◌≡◌, refl, ap, sym, ◌∙◌, inl, inr, Bool, not, if◌then◌else◌, port_in_use, Bool-cases, [],
  ◌∷◌, Bytes, ◌==ₛ◌, All, arith, Option, none, some, Result, ok, err, >>=-eq-ok,
}
use distributed_p2p_ledger.Mempool.{new_mempool}
use distributed_p2p_ledger.Mempool.Invariant.{new_mempool-IsValidPool}
use distributed_p2p_ledger.Storage.{Store}
use distributed_p2p_ledger.Storage.ChainFile.{Disk}
use distributed_p2p_ledger.Storage.Start.{new_file_chain_storage}
use distributed_p2p_ledger.Storage.Restart.{start-IsValidStore}
use distributed_p2p_ledger.Text.{trim_right_byte}
use distributed_p2p_ledger.Gossip.{Engine, new_local_engine}
use distributed_p2p_ledger.Gossip.Invariant.{IsValidEngine, IsValidEngine-later}
use distributed_p2p_ledger.Gossip.Sync.{Advances}
use distributed_p2p_ledger.Gossip.Peers.{Url, add_peers, split_lines, load_peers, new_gossip_engine}
use distributed_p2p_ledger.Node.Config.{NodeConfig}
use distributed_p2p_ledger.Node.Process.{Event, start_process}
use distributed_p2p_ledger.Node.Process.Safe.{clock, process_run-Advances}
use distributed_p2p_ledger.Node.Startup.{
  World, attach, start_engine, run_engine, run_started, run_node, served, run_node-checks,
  run_node-starts, run_engine-refused, not_served, serving,
}

some-injective : {A : Type 0} {a b : A} → ◌≡◌ {A = Option A} (some a) (some b) → a ≡ b
some-injective h = cc

none-some : {A : Type 0} {a : A} → ◌≡◌ {A = Option A} none (some a) → ⊥
none-some h = absurd cc

-- An engine that holds a store, an empty pool and no jobs.
pub record IsFresh (cs : Store) (g : Engine) : Type 0 where
  pub store : g.chain_store ≡ cs
  pub pool : g.mempool ≡ new_mempool
  pub jobs : g.jobs ≡ []

Advances-to : (horizon : ℕ) (g t u : Engine) → t ≡ u → Advances horizon g t → Advances horizon g u
Advances-to horizon g t u e a = rw (← e) a

module _ (parse : Bytes → Option Url) (file : Bytes) (content : Option Bytes) (addr : Bytes)
    (cs : Store) where
  load_peers-IsFresh :
      (found : Option Bytes) (g : Engine)
      → load_peers parse found
          (record (new_local_engine new_mempool cs) { node_addr = trim_right_byte b'/' addr })
        ≡ ok g
      → IsFresh cs g
  unfolding load_peers
  load_peers-IsFresh none g h = absurd cc
  load_peers-IsFresh (some raw) g h =
      let (peers, _, made) =
        >>=-eq-ok (add_peers parse (trim_right_byte b'/' addr) [] [] (split_lines raw)) _ h in
      let same : record (new_local_engine new_mempool cs) {
        node_addr = trim_right_byte b'/' addr;
        peers = peers;
      }
          ≡ g =
        ground arith in
      rw (← same) (record { store = refl; pool = refl; jobs = refl })

  new_gossip_engine-IsFresh :
      (g : Engine) → new_gossip_engine parse file content addr new_mempool cs ≡ ok g → IsFresh cs g
  unfolding new_gossip_engine
  new_gossip_engine-IsFresh g h = elim (Bool-cases (file ==ₛ [])) [
    | inl alone ↦
        let same : record (new_local_engine new_mempool cs) {
          node_addr = trim_right_byte b'/' addr;
        }
            ≡ g =
          ground arith in
        rw (← same) (record { store = refl; pool = refl; jobs = refl })
    | inr listed ↦ load_peers-IsFresh content g (ground arith)
  ]

module _ (w : World) (c : NodeConfig) where
  attach-IsFresh :
      (r : Result Store × Disk) (g : Engine)
      → (attach w c r).0 ≡ ok g
      → (cs : Store) × (r.0 ≡ ok cs) × IsFresh cs g
  unfolding attach
  attach-IsFresh (err e, disk) g h = absurd cc
  attach-IsFresh (ok cs, disk) g h = (
    cs,
    refl,
    new_gossip_engine-IsFresh w.parsers.url c.peers_file w.peers_content c.node_addr cs g h,
  )

module _ (w : World) (c : NodeConfig) (disk : Disk) where
  pub start_engine-IsFresh :
      (g : Engine)
      → (start_engine w c disk).0 ≡ ok g
      → (cs : Store) × ((new_file_chain_storage w.now w.json (c.required_zeros ∷ []) w.io disk).0
          ≡ ok cs)
        × IsFresh cs g
  unfolding start_engine
  start_engine-IsFresh g h =
      attach-IsFresh w c (new_file_chain_storage w.now w.json (c.required_zeros ∷ []) w.io disk) g h

  pub start_engine-IsValidEngine :
      (g : Engine) → (start_engine w c disk).0 ≡ ok g → IsValidEngine w.now g
  start_engine-IsValidEngine g h =
      let (cs, opens, fresh) = start_engine-IsFresh g h in
      record {
        store =
            rw fresh.store
              (start-IsValidStore w.now w.json (c.required_zeros ∷ []) w.io disk opens);
        pool = rw fresh.pool new_mempool-IsValidPool;
        apart = rw fresh.pool tt;
        jobs = rw fresh.jobs (omega arith);
      }

  run_engine-served :
      (g t : Engine)
      → (run_engine w c g).engine ≡ some t
      → (served w c g ≡ t) × ((run_engine w c g).disk ≡ t.chain_store.disk)
  unfolding run_engine
  run_engine-served g t h = elim (Bool-cases w.listens) [
    | inl bound ↦
        let same : served w c g ≡ t = some-injective (
          ap
            (λ (b : Bool).
              (if not b
                then not_served (err port_in_use) g.chain_store.disk
                else serving w c g).engine)
            (sym bound)
          ∙ h) in
        (
          same,
          ap
                (λ (b : Bool).
                  (if not b
                    then not_served (err port_in_use) g.chain_store.disk
                    else serving w c g).disk)
                bound
              ∙ ap (λ (x : Engine). x.chain_store.disk) same,
        )
    | inr taken ↦ absurd (none-some (ap (λ o. o.engine) (sym (run_engine-refused w c g taken)) ∙ h))
  ]

  run_started-served :
      (r : Result Engine × Disk) (t : Engine)
      → (run_started w c r).engine ≡ some t
      → (g : Engine) × (r.0 ≡ ok g)
        × (served w c g ≡ t)
        × ((run_started w c r).disk ≡ t.chain_store.disk)
  unfolding run_started
  run_started-served (err e, d) t h = absurd cc
  run_started-served (ok g, d) t h =
      let (same, disk_same) = run_engine-served g t h in (g, refl, same, disk_same)

  served-Advances :
      (horizon : ℕ) (g : Engine)
      → w.now ≤ horizon
      → All (λ (e : Event). clock e ≤ horizon) w.events
      → (start_engine w c disk).0 ≡ ok g
      → Advances horizon g (served w c g)
  served-Advances horizon g le timely starts =
      process_run-Advances horizon w.codecs c.required_zeros w.events
        (start_process c.required_zeros c.mine_every g) timely
        (IsValidEngine-later w.now horizon g le (start_engine-IsValidEngine g starts))

  -- What a node that came to serve held at its start and at its end.
  pub record Served (horizon : ℕ) (t : Engine) : Type 0 where
    pub first : Engine
    pub starts : (start_engine w c disk).0 ≡ ok first
    pub same : served w c first ≡ t
    pub advances : Advances horizon first t
    pub disk_of : (run_node w c disk).disk ≡ t.chain_store.disk

  -- A node that came to serve: `Run` started it with an engine on the store that the chain file
  -- gave, and if no clock reading is past the horizon, then after whatever requests, syncs and
  -- mining the engine satisfies the invariant, holds every ID that it held at the start, has the
  -- same chain or one preferred to it, and the disk that is left is that of its store.
  pub run_node-Served :
      (horizon : ℕ) (t : Engine)
      → w.now ≤ horizon
      → All (λ (e : Event). clock e ≤ horizon) w.events
      → (run_node w c disk).engine ≡ some t
      → Served horizon t
  run_node-Served horizon t le timely h = elim (Bool-cases c.healthcheck) [
    | inl only ↦ absurd (none-some (ap (λ o. o.engine) (sym (run_node-checks w c disk only)) ∙ h))
    | inr node ↦
        let begun = run_node-starts w c disk node in
        let (g, starts, same, disk_same) =
          run_started-served (start_engine w c disk) t (ap (λ o. o.engine) (sym begun) ∙ h) in
        record {
          first = g;
          starts = starts;
          same = same;
          advances =
              Advances-to horizon g (served w c g) t same
                (served-Advances horizon g le timely starts);
          disk_of = ap (λ o. o.disk) begun ∙ disk_same;
        }
  ]
