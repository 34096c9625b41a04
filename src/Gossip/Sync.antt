-- ===== src/Gossip/Sync.antt =====
-- `ResolveConflicts`, with arbitrary answers of the peers.
use distributed_p2p_ledger.Base.{
  ℕ, ◌≤◌, ◌≡◌, refl, ap, inl, inr, Bool, Bool-cases, true, false, List, [], ◌∷◌, Bytes, length, leb,
  ◌==◌, Result, Result-cases, ok, err,
}
use distributed_p2p_ledger.Models.Transaction.{Transaction}
use distributed_p2p_ledger.Models.Block.{Block}
use distributed_p2p_ledger.Models.Chain.{validate_chain}
use distributed_p2p_ledger.Mempool.{max_pending}
use distributed_p2p_ledger.Storage.Replace.{Progresses, Progresses-trans}
use distributed_p2p_ledger.Gossip.{
  Engine, Env, Answer, adopt, submit_transaction, sync_chain, submit_all, sync_pending, sync_peers,
  rotated_peers, advance_peer, resolve_conflicts,
}
use distributed_p2p_ledger.Gossip.Invariant.{IsValidEngine, knows}
use distributed_p2p_ledger.Gossip.Submit.{
  submit_transaction-IsValidEngine, submit_transaction-knows, chain-submit_transaction,
}
use distributed_p2p_ledger.Gossip.Adopt.Keeps.{adopt-IsValidEngine, adopt-knows, adopt-Progresses}

-- `t` holds all that `g` held, on the same or a better chain, and is as sound as `g`.
pub record Advances (horizon : ℕ) (g t : Engine) : Type 0 where
  pub valid : IsValidEngine horizon t
  pub known : (k : Bytes) → knows g k ≡ true → knows t k ≡ true
  pub chain : Progresses g.chain_store.chain t.chain_store.chain

pub Advances-refl : (horizon : ℕ) (g : Engine) → IsValidEngine horizon g → Advances horizon g g
Advances-refl horizon g v = record { valid = v; known = λ k h. h; chain = inl refl }

pub Advances-trans :
    {horizon : ℕ} {g t u : Engine}
    → Advances horizon g t
    → Advances horizon t u
    → Advances horizon g u
Advances-trans {horizon} {g} {t} {u} a b = record {
  valid = b.valid;
  known = λ k h. b.known k (a.known k h);
  chain =
      Progresses-trans g.chain_store.chain t.chain_store.chain u.chain_store.chain a.chain b.chain;
}

module _ (horizon : ℕ) where
  pub submit_transaction-Advances :
      (env : Env) (tx : Transaction) (g : Engine)
      → IsValidEngine horizon g
      → Advances horizon g (submit_transaction env tx g).1
  submit_transaction-Advances env tx g v = record {
    valid = submit_transaction-IsValidEngine horizon env tx g v;
    known = λ k h. submit_transaction-knows env tx g k h;
    chain = inl (ap (λ s. s.chain) (chain-submit_transaction env tx g));
  }

  pub adopt-Advances :
      (env : Env) (chain : List Block) (g : Engine)
      → env.now ≤ horizon
      → IsValidEngine horizon g
      → Advances horizon g (adopt env chain g).1
  adopt-Advances env chain g le v = record {
    valid = adopt-IsValidEngine env chain g v le;
    known = λ k h. adopt-knows env chain g v k h;
    chain = adopt-Progresses env chain g v;
  }

  pub sync_chain-Advances :
      (env : Env) (r : Result (List Block)) (g : Engine)
      → env.now ≤ horizon
      → IsValidEngine horizon g
      → Advances horizon g (sync_chain env r g)
  unfolding sync_chain
  sync_chain-Advances env (err e) g le v = Advances-refl horizon g v
  sync_chain-Advances env (ok chain) g le v =
      elim (Result-cases (validate_chain env.now chain g.chain_store.difficulty)) [
        | inl (_, h) ↦ rw (h, sync_chain) (adopt-Advances env chain g le v)
        | inr (e, h) ↦ rw (h, sync_chain) (Advances-refl horizon g v)
      ]

  submit_all-Advances :
      (env : Env) (txs : List (Transaction × List ℕ)) (g : Engine)
      → IsValidEngine horizon g
      → Advances horizon g (submit_all env txs g)
  unfolding submit_all
  submit_all-Advances env [] g v = Advances-refl horizon g v
  submit_all-Advances env ((tx, perm) ∷ txs) g v =
      let first = submit_transaction-Advances (record env { perm = perm }) tx g v in
      Advances-trans first (
        submit_all-Advances env txs (submit_transaction (record env { perm = perm }) tx g).1
          first.valid)

  pub sync_pending-Advances :
      (env : Env) (r : Result (List (Transaction × List ℕ))) (g : Engine)
      → IsValidEngine horizon g
      → Advances horizon g (sync_pending env r g)
  unfolding sync_pending
  sync_pending-Advances env (err e) g v = Advances-refl horizon g v
  sync_pending-Advances env (ok txs) g v = elim (Bool-cases (leb (length txs) max_pending)) [
    | inl h ↦ rw h (submit_all-Advances env txs g v)
    | inr h ↦ rw h (Advances-refl horizon g v)
  ]

  pub advance_peer-Advances :
      (g : Engine) → IsValidEngine horizon g → Advances horizon g (advance_peer g)
  unfolding advance_peer
  advance_peer-Advances g v = elim (Bool-cases (length g.peers == 0)) [
    | inl h ↦ rw h (Advances-refl horizon g v)
    | inr h ↦ rw h (record {
      valid = record { store = v.store; pool = v.pool; apart = v.apart; jobs = v.jobs };
      known = λ k h. h;
      chain = inl refl;
    })
  ]

  module _ (answers : Bytes → Answer)
      (timely : (peer : Bytes) → (answers peer).env.now ≤ horizon) where
    sync_peers-Advances :
        (peers : List Bytes) (g : Engine)
        → IsValidEngine horizon g
        → Advances horizon g (sync_peers answers peers g)
    unfolding sync_peers
    sync_peers-Advances [] g v = Advances-refl horizon g v
    sync_peers-Advances (peer ∷ peers) g v =
        let a = answers peer in
        let first = sync_chain-Advances a.env a.chain g (timely peer) v in
        let second =
          sync_pending-Advances a.env a.pending (sync_chain a.env a.chain g) first.valid in
        elim (Bool-cases a.expired) [
          | inl h ↦ rw (h, sync_peers) (Advances-refl horizon g v)
          | inr h ↦
              rw (h, sync_peers)
                (Advances-trans first (
                  Advances-trans second (
                    sync_peers-Advances peers
                      (sync_pending a.env a.pending (sync_chain a.env a.chain g)) second.valid)))
        ]

    -- Whatever the peers answer, on an engine that satisfies the invariant and with clock
    -- readings up to the horizon: after a sync the invariant holds, every ID that was pending or
    -- confirmed is pending or confirmed, and the chain is the same or preferred to the one
    -- before.
    pub resolve_conflicts-Advances :
        (busy : Bool) (g : Engine)
        → IsValidEngine horizon g
        → Advances horizon g (resolve_conflicts busy answers g)
    unfolding resolve_conflicts
    resolve_conflicts-Advances true g v = Advances-refl horizon g v
    resolve_conflicts-Advances false g v =
        let first = advance_peer-Advances g v in
        Advances-trans first (sync_peers-Advances (rotated_peers g) (advance_peer g) first.valid)
