-- ===== src/Gossip/Invariant.antt =====
-- The engine's invariant, what it knows, and the calls that touch neither chain nor pool.
use distributed_p2p_ledger.Base.{
  ℕ, ◌≤◌, ◌≡◌, refl, ◌∙◌, Bool, ◌||◌, List, [], ◌∷◌, Bytes, length, length-append, arith, Apart,
  has,
}
use distributed_p2p_ledger.Storage.Invariant.{IsValidStore, IsValidStore-later}
use distributed_p2p_ledger.Mempool.Invariant.{IsValidPool, pending_ids}
use distributed_p2p_ledger.Gossip.{
  Engine, Env, Outgoing, offer, offer_all, broadcast, request_sync, select_random_peers,
  default_fanout, max_jobs,
}

-- A transaction is pending or confirmed, and never both; the channel of jobs is within its capacity.
pub record IsValidEngine (now : ℕ) (g : Engine) : Type 0 where
  pub store : IsValidStore now g.chain_store
  pub pool : IsValidPool g.mempool
  pub apart : Apart (pending_ids g.mempool) g.chain_store.tx_ids
  pub jobs : length g.jobs ≤ max_jobs

-- The engine holds a transaction with this ID, pending or confirmed.
abbrev pub knows : Engine → Bytes → Bool
knows g k = has (pending_ids g.mempool) k || has g.chain_store.tx_ids k

pub IsValidEngine-later :
    (now later : ℕ) (g : Engine) → now ≤ later → IsValidEngine now g → IsValidEngine later g
IsValidEngine-later now later g h v = record {
  store = IsValidStore-later now later g.chain_store h v.store;
  pool = v.pool;
  apart = v.apart;
  jobs = v.jobs;
}

-- Chain, pool and mining generation are the same, and the channel of jobs stays within its capacity.
pub record SameHoldings (g t : Engine) : Type 0 where
  pub store : t.chain_store ≡ g.chain_store
  pub mempool : t.mempool ≡ g.mempool
  pub generation : t.generation ≡ g.generation
  pub peers : t.peers ≡ g.peers
  pub next_peer : t.next_peer ≡ g.next_peer
  pub jobs : length g.jobs ≤ max_jobs → length t.jobs ≤ max_jobs

offer-SameHoldings : (job : Outgoing) (g : Engine) → SameHoldings g (offer job g)
unfolding offer
offer-SameHoldings job g = record {
  store = ground arith;
  mempool = ground arith;
  generation = ground arith;
  peers = ground arith;
  next_peer = ground arith;
  jobs = λ h. ground (arith, length-append g.jobs (job ∷ []));
}

SameHoldings-trans : (g t u : Engine) → SameHoldings g t → SameHoldings t u → SameHoldings g u
SameHoldings-trans g t u a b = record {
  store = b.store ∙ a.store;
  mempool = b.mempool ∙ a.mempool;
  generation = b.generation ∙ a.generation;
  peers = b.peers ∙ a.peers;
  next_peer = b.next_peer ∙ a.next_peer;
  jobs = λ h. b.jobs (a.jobs h);
}

offer_all-SameHoldings :
    (path body : Bytes) (peers : List Bytes) (g : Engine)
    → SameHoldings g (offer_all path body peers g)
unfolding offer_all
offer_all-SameHoldings path body [] g = record {
  store = refl;
  mempool = refl;
  generation = refl;
  peers = refl;
  next_peer = refl;
  jobs = λ h. h;
}
offer_all-SameHoldings path body (peer ∷ peers) g =
    let t = offer (record { peer = peer; path = path; body = body }) g in
    SameHoldings-trans g t (offer_all path body peers t)
      (offer-SameHoldings (record { peer = peer; path = path; body = body }) g)
      (offer_all-SameHoldings path body peers t)

pub broadcast-SameHoldings :
    (env : Env) (path body : Bytes) (g : Engine) → SameHoldings g (broadcast env path body g)
unfolding broadcast
broadcast-SameHoldings env path body g =
    offer_all-SameHoldings path body (select_random_peers env.perm default_fanout g.peers) g

pub request_sync-SameHoldings : (g : Engine) → SameHoldings g (request_sync g)
unfolding request_sync
request_sync-SameHoldings g = record {
  store = refl;
  mempool = refl;
  generation = refl;
  peers = refl;
  next_peer = refl;
  jobs = λ h. h;
}

pub SameHoldings-IsValidEngine :
    (now : ℕ) (g t : Engine) → SameHoldings g t → IsValidEngine now g → IsValidEngine now t
SameHoldings-IsValidEngine now g t e v = record {
  store = rw e.store v.store;
  pool = rw e.mempool v.pool;
  apart = rw (e.mempool, e.store) v.apart;
  jobs = e.jobs v.jobs;
}

pub SameHoldings-knows : (g t : Engine) (k : Bytes) → SameHoldings g t → knows t k ≡ knows g k
SameHoldings-knows g t k e = rw (e.mempool, e.store) refl

pub SameHoldings-refl : (g : Engine) → SameHoldings g g
SameHoldings-refl g = record {
  store = refl;
  mempool = refl;
  generation = refl;
  peers = refl;
  next_peer = refl;
  jobs = λ h. h;
}

-- The peers, and the one at which the next sync begins, are the same.
pub record SamePeers (g t : Engine) : Type 0 where
  pub peers : t.peers ≡ g.peers
  pub next_peer : t.next_peer ≡ g.next_peer

pub SamePeers-refl : (g : Engine) → SamePeers g g
SamePeers-refl g = record { peers = refl; next_peer = refl }

pub SamePeers-trans : {g t u : Engine} → SamePeers g t → SamePeers t u → SamePeers g u
SamePeers-trans a b = record { peers = b.peers ∙ a.peers; next_peer = b.next_peer ∙ a.next_peer }
