-- ===== src/Gossip/Trace/Syncs.antt =====
-- A sync is a run of the engine's calls.
use distributed_p2p_ledger.Base.{
  ℕ, ◌≤◌, inl, inr, Bool, Bool-cases, true, false, List, [], ◌∷◌, Bytes, length, leb, Result,
  Result-cases, ok, err,
}
use distributed_p2p_ledger.Models.Transaction.{Transaction}
use distributed_p2p_ledger.Models.Block.{Block}
use distributed_p2p_ledger.Models.Chain.{validate_chain}
use distributed_p2p_ledger.Mempool.{max_pending}
use distributed_p2p_ledger.Gossip.{
  Engine, Env, Answer, submit_transaction, sync_chain, submit_all, sync_pending, sync_peers,
  rotated_peers, advance_peer, resolve_conflicts,
}
use distributed_p2p_ledger.Gossip.Trace.{Run, Run-trans, here, next, submits, adopts, begins}

module _ (horizon : ℕ) where
  pub sync_chain-Run :
      (env : Env) (r : Result (List Block)) (g : Engine)
      → env.now ≤ horizon
      → Run horizon g (sync_chain env r g)
  unfolding sync_chain
  sync_chain-Run env (err e) g le = here
  sync_chain-Run env (ok chain) g le =
      elim (Result-cases (validate_chain env.now chain g.chain_store.difficulty)) [
        | inl (_, h) ↦ rw (h, sync_chain) (next here (adopts env chain le))
        | inr (e, h) ↦ rw (h, sync_chain) here
      ]

  submit_all-Run :
      (env : Env) (txs : List (Transaction × List ℕ)) (g : Engine)
      → Run horizon g (submit_all env txs g)
  unfolding submit_all
  submit_all-Run env [] g = here
  submit_all-Run env ((tx, perm) ∷ txs) g =
      Run-trans (next here (submits (record env { perm = perm }) tx))
        (submit_all-Run env txs (submit_transaction (record env { perm = perm }) tx g).1)

  pub sync_pending-Run :
      (env : Env) (r : Result (List (Transaction × List ℕ))) (g : Engine)
      → Run horizon g (sync_pending env r g)
  unfolding sync_pending
  sync_pending-Run env (err e) g = here
  sync_pending-Run env (ok txs) g = elim (Bool-cases (leb (length txs) max_pending)) [
    | inl h ↦ rw h (submit_all-Run env txs g)
    | inr h ↦ rw h here
  ]

  module _ (answers : Bytes → Answer)
      (timely : (peer : Bytes) → (answers peer).env.now ≤ horizon) where
    pub sync_peers-Run :
        (peers : List Bytes) (g : Engine) → Run horizon g (sync_peers answers peers g)
    unfolding sync_peers
    sync_peers-Run [] g = here
    sync_peers-Run (peer ∷ peers) g =
        let a = answers peer in
        let after_chain = sync_chain a.env a.chain g in
        let after_pool = sync_pending a.env a.pending after_chain in
        elim (Bool-cases a.expired) [
          | inl h ↦ rw (h, sync_peers) here
          | inr h ↦
              rw (h, sync_peers)
                (Run-trans (sync_chain-Run a.env a.chain g (timely peer)) (
                  Run-trans (sync_pending-Run a.env a.pending after_chain)
                    (sync_peers-Run peers after_pool)))
        ]

    pub resolve_conflicts-Run :
        (busy : Bool) (g : Engine) → Run horizon g (resolve_conflicts busy answers g)
    unfolding resolve_conflicts
    resolve_conflicts-Run true g = here
    resolve_conflicts-Run false g =
        Run-trans (next here begins) (sync_peers-Run (rotated_peers g) (advance_peer g))
