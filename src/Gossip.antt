-- ===== src/Gossip.antt =====
-- Gossip_Engine/gossip.go: the engine that owns the chain and the pool. What a method does under the
-- engine's lock is one step; the clock, the calls of the package os and rand.Perm are in `Env`.
pub mod Invariant
pub mod Submit
pub mod Receive
pub mod Adopt
pub mod Sync
pub mod Rotation
pub mod Trace
pub mod Peers
pub mod Repeat
pub mod Worker
pub mod Http
pub mod Agreement
pub mod Spread
use distributed_p2p_ledger.Base.{
  ℕ, zero, suc, ◌+◌, ◌-◌, ◌%◌, Bool, true, false, not, ◌||◌, List, [], ◌∷◌, ◌++◌, Bytes, codes,
  length, ltb, leb, ◌==◌, if◌then◌else◌, get_elem?, take, drop, Option, none, some, elements,
  is_some, Error, stale_block, in_block, load_chain, duplicate, not_better, Result, ok, err, ◌>>=◌,
  ◌>>◌, reject,
}
use distributed_p2p_ledger.Models.Transaction.{
  Transaction, encode_transaction, validate_transaction,
}
use distributed_p2p_ledger.Models.Block.{Block, ids, validate_block, max_block_transactions}
use distributed_p2p_ledger.Models.Chain.{encode_block, better_chain, validate_chain}
use distributed_p2p_ledger.Mempool
use distributed_p2p_ledger.Mempool.{
  Mempool, max_pending, try_add, get_pending, remove, prepare_reorg, replace, new_mempool,
}
use distributed_p2p_ledger.Storage.{
  Store, get_chain, get_latest_block, add_block, replace_chain, transaction_exists,
}
use distributed_p2p_ledger.Storage.ChainFile.{Faults}

abbrev pub default_fanout : ℕ
default_fanout = 2

-- The capacity of the channel of jobs.
abbrev pub max_jobs : ℕ
max_jobs = 128

pub record Outgoing : Type 0 where
  pub peer : Bytes
  pub path : Bytes
  pub body : Bytes

pub record Engine : Type 0 where
  pub next_peer : ℕ
  pub peers : List Bytes
  pub node_addr : Bytes
  pub chain_store : Store
  pub mempool : Mempool
  -- how often the channel `changed` was closed and made anew
  pub generation : ℕ
  -- whether the channel `syncNeeded`, of capacity 1, is full
  pub sync_needed : Bool
  pub jobs : List Outgoing

abbrev pub new_local_engine : Mempool → Store → Engine
new_local_engine mp cs = record {
  next_peer = 0;
  peers = [];
  node_addr = [];
  chain_store = cs;
  mempool = mp;
  generation = 0;
  sync_needed = false;
  jobs = [];
}

-- What the environment answers during one call: the time, the file system, and rand.Perm.
pub record Env : Type 0 where
  pub now : ℕ
  pub io : Faults
  pub perm : List ℕ

-- The peers at the given places. rand.Perm gives no place outside the list.
pick : List Bytes → List ℕ → List Bytes
pick peers [] = []
pick peers (j ∷ js) = elim (get_elem? peers j) [
  | none ↦ pick peers js
  | some peer ↦ peer ∷ pick peers js
]

-- A fan-out larger than the number of peers is cut to it.
unfoldable pub select_random_peers : List ℕ → ℕ → List Bytes → List Bytes
unfolding pick
select_random_peers perm n peers =
    pick peers (take (if ltb (length peers) n then length peers else n) perm)

-- A send on the channel of jobs, or nothing if it is full.
unfoldable pub offer : Outgoing → Engine → Engine
offer job g = if ltb (length g.jobs) max_jobs then record g { jobs = g.jobs ++ job ∷ [] } else g

unfoldable pub offer_all : Bytes → Bytes → List Bytes → Engine → Engine
unfolding offer
offer_all path body [] g = g
offer_all path body (peer ∷ peers) g =
    offer_all path body peers (offer (record { peer = peer; path = path; body = body }) g)

unfoldable pub broadcast : Env → Bytes → Bytes → Engine → Engine
broadcast env path body g =
    offer_all path body (select_random_peers env.perm default_fanout g.peers) g

unfoldable pub request_sync : Engine → Engine
request_sync g = record g { sync_needed = true }

-- The part of `SubmitTransaction` under the lock.
unfoldable pub admit : Transaction → Engine → Result (Unit {0}) × Engine
admit tx g = elim (do exists ← transaction_exists tx.id g.chain_store; reject exists duplicate) [
  | err e ↦ (err e, g)
  | ok _ ↦ let (r, mempool) = try_add tx g.mempool in (r, record g { mempool = mempool })
]

unfoldable pub relay_transaction :
    Env → Transaction → Result (Unit {0}) × Engine → Result (Unit {0}) × Engine
relay_transaction env tx (err e, g) = (err e, g)
relay_transaction env tx (ok _, g) =
    (ok tt, broadcast env (codes "/gossip") (encode_transaction tx) g)

unfoldable pub submit_transaction : Env → Transaction → Engine → Result (Unit {0}) × Engine
unfolding relay_transaction
submit_transaction env tx g = elim (validate_transaction tx) [
  | err e ↦ (err e, g)
  | ok _ ↦ relay_transaction env tx (admit tx g)
]

-- `Gossip` and `HandleIncoming` drop the error.
unfoldable pub gossip : Env → Transaction → Engine → Engine
gossip env tx g = (submit_transaction env tx g).1

unfoldable pub handle_incoming : Env → Transaction → Engine → Engine
handle_incoming env tx g = (submit_transaction env tx g).1

-- errors.Is(err, storage.ErrStaleBlock)
unfoldable pub is_stale_block : Error → Bool
is_stale_block stale_block = true
is_stale_block (in_block i e) = is_stale_block e
is_stale_block (load_chain e) = is_stale_block e
is_stale_block _ = false

-- The part of `HandleIncomingBlock` under the lock.
unfoldable pub append_block : Env → Block → Engine → Result (Unit {0}) × Engine
append_block env b g =
    let (r, store) = add_block env.now env.io b g.chain_store in
    elim r [
      | err e ↦ (err e, record g { chain_store = store })
      | ok _ ↦ (
        ok tt,
        record g {
          chain_store = store;
          mempool = remove (ids b) g.mempool;
          generation = g.generation + 1;
        },
      )
    ]

unfoldable pub relay_block : Env → Block → Result (Unit {0}) × Engine → Result (Unit {0}) × Engine
unfolding is_stale_block
relay_block env b (err e, g) = (err e, if is_stale_block e then request_sync g else g)
relay_block env b (ok _, g) = (ok tt, broadcast env (codes "/block") (encode_block b) g)

unfoldable pub handle_incoming_block : Env → Block → Engine → Result (Unit {0}) × Engine
unfolding relay_block
handle_incoming_block env b g = elim (validate_block env.now b g.chain_store.difficulty) [
  | err e ↦ (err e, g)
  | ok _ ↦ relay_block env b (append_block env b g)
]

-- The tip, at most 100 pending transactions, and the generation of `changed`.
unfoldable pub mining_work : Engine → Result (Block × List Transaction × ℕ)
mining_work g = do
  tip ← get_latest_block g.chain_store
  let pending = get_pending g.mempool
  ok (
    tip,
    if ltb max_block_transactions (length pending)
        then take max_block_transactions pending
        else pending,
    g.generation,
  )

-- The checks of `adopt`, with the transactions that will be pending.
unfoldable pub check_adopt : List Block → Engine → Result (List Transaction)
check_adopt chain g = do
  old ← get_chain g.chain_store
  reject (not (better_chain chain old)) not_better
  prepare_reorg old chain g.mempool

unfoldable pub commit_adopt :
    Env → List Block → List Transaction → Engine → Result (Unit {0}) × Engine
commit_adopt env chain pending g =
    let (r, store) = replace_chain env.now env.io chain g.chain_store in
    elim r [
      | err e ↦ (err e, record g { chain_store = store })
      | ok _ ↦ (
        ok tt,
        record g {
          chain_store = store;
          mempool = replace pending g.mempool;
          generation = g.generation + 1;
        },
      )
    ]

unfoldable pub adopt : Env → List Block → Engine → Result (Unit {0}) × Engine
adopt env chain g = elim (check_adopt chain g) [
  | err e ↦ (err e, g)
  | ok pending ↦ commit_adopt env chain pending g
]

unfoldable pub read_state : Engine → Result (List Block × List Transaction)
read_state g = do chain ← get_chain g.chain_store; ok (chain, get_pending g.mempool)

unfoldable pub status : Engine → Result (Block × ℕ)
status g = do tip ← get_latest_block g.chain_store; ok (tip, Mempool.size g.mempool)

-- The two requests of a sync to one peer, as they were answered: the chain and the pool that the peer
-- sent, each transaction with what rand.Perm returns when it is relayed, and whether the sync's
-- deadline had passed before.
pub record Answer : Type 0 where
  pub expired : Bool
  pub env : Env
  pub chain : Result (List Block)
  pub pending : Result (List (Transaction × List ℕ))

unfoldable pub sync_chain : Env → Result (List Block) → Engine → Engine
sync_chain env (err e) g = g
sync_chain env (ok chain) g = elim (validate_chain env.now chain g.chain_store.difficulty) [
  | err e ↦ g
  | ok _ ↦ (adopt env chain g).1
]

unfoldable pub submit_all : Env → List (Transaction × List ℕ) → Engine → Engine
submit_all env [] g = g
submit_all env ((tx, perm) ∷ txs) g =
    submit_all env txs (submit_transaction (record env { perm = perm }) tx g).1

unfoldable pub sync_pending : Env → Result (List (Transaction × List ℕ)) → Engine → Engine
sync_pending env (err e) g = g
sync_pending env (ok txs) g = if leb (length txs) max_pending then submit_all env txs g else g

-- The loop over the peers, which an expired deadline ends.
unfoldable pub sync_peers : (Bytes → Answer) → List Bytes → Engine → Engine
unfolding sync_chain sync_pending
sync_peers answers [] g = g
sync_peers answers (peer ∷ peers) g = elim (answers peer).expired [
  | true ↦ g
  | false ↦ sync_peers answers peers (
      sync_pending (answers peer).env (answers peer).pending
        (sync_chain (answers peer).env (answers peer).chain g))
]

-- The peers from place `next_peer` on, and then those before it.
unfoldable pub rotated_peers : Engine → List Bytes
rotated_peers g =
    let start = g.next_peer % length g.peers in drop start g.peers ++ take start g.peers

-- The peer at which the next sync begins. Without peers nothing is changed.
unfoldable pub advance_peer : Engine → Engine
advance_peer g =
    if length g.peers == 0
    then g
    else record g { next_peer = (g.next_peer % length g.peers + 1) % length g.peers }

-- `ResolveConflicts`; `busy` tells whether another sync holds the sync lock.
unfoldable pub resolve_conflicts : Bool → (Bytes → Answer) → Engine → Engine
unfolding sync_peers advance_peer rotated_peers
resolve_conflicts busy answers g =
    if busy then g else sync_peers answers (rotated_peers g) (advance_peer g)
