-- ===== src/Node/Process/Schedule.antt =====
-- A sync of a node whose events are not disturbed by others.
use distributed_p2p_ledger.Base.{
  ℕ, ◌≡◌, refl, ◌∙◌, inl, inr, Bool, Bool-cases, false, List, [], ◌∷◌, ◌++◌, Bytes, length, leb,
  map, length-map, Option, Result, ok, err, ℤ, if◌then◌else◌,
}
use distributed_p2p_ledger.Models.Transaction.{Transaction}
use distributed_p2p_ledger.Mempool.{max_pending}
use distributed_p2p_ledger.Gossip.{
  Engine, Env, Answer, submit_transaction, submit_all, sync_chain, sync_pending, sync_peers,
  rotated_peers, advance_peer, resolve_conflicts,
}
use distributed_p2p_ledger.Gossip.Http.{Response, get, max_response_bytes, max_pool_bytes}
use distributed_p2p_ledger.Node.Process.{
  Codecs, Process, Event, waiting, sync_tick, deadline, chain_comes, pool_comes, pool_submits,
  after_peer, first_peer, submit_stage, accepted_pool, on_tick, on_deadline, on_chain, on_pool,
  on_submit, process_step, process_run,
}

-- How a peer responds, whether the deadline has passed before it is asked, and what rand.Perm returns
-- when a transaction of its pool is relayed.
pub record Responses : Type 0 where
  pub expired : Bool
  pub env : Env
  pub chain : Option Response
  pub pool : Option Response
  pub perm : Transaction → List ℕ

module _ (codecs : Codecs) where
  abbrev pub with_perms :
      (Transaction → List ℕ) → Result (List Transaction) → Result (List (Transaction × List ℕ))
  with_perms perm (err e) = err e
  with_perms perm (ok txs) = ok (map (λ tx. (tx, perm tx)) txs)

  -- What the sync reads of the responses.
  abbrev pub answer_of : Responses → Answer
  answer_of r = record {
    expired = r.expired;
    env = r.env;
    chain = get codecs.chain max_response_bytes r.chain;
    pending = with_perms r.perm (get codecs.pool max_pool_bytes r.pool);
  }

  abbrev pub submissions : Responses → List Transaction → List Event
  submissions r [] = []
  submissions r (tx ∷ txs) = pool_submits (record r.env { perm = r.perm tx }) ∷ submissions r txs

  -- The events of the loop over the peers.
  abbrev pub peer_events : (Bytes → Responses) → List Bytes → List Event
  peer_events responses [] = []
  peer_events responses (peer ∷ peers) =
      let rest = peer_events responses peers in
      let r = responses peer in
      if r.expired
      then deadline ∷ []
      else chain_comes r.env r.chain
        ∷ pool_comes r.pool
        ∷ (submissions r (accepted_pool (get codecs.pool max_pool_bytes r.pool)) ++ rest)

  after_peer-first_peer :
      (peer : Bytes) (peers : List Bytes) → after_peer (peer ∷ peers) ≡ first_peer peers
  unfolding after_peer
  after_peer-first_peer peer [] = refl
  after_peer-first_peer peer (x ∷ peers) = refl

  sync_pending-with_perms :
      (r : Responses) (txs : Result (List Transaction)) (g : Engine)
      → sync_pending r.env (with_perms r.perm txs) g
        ≡ submit_all r.env (map (λ tx. (tx, r.perm tx)) (accepted_pool txs)) g
  unfolding sync_pending accepted_pool submit_all
  sync_pending-with_perms r (err e) g = refl
  sync_pending-with_perms r (ok txs) g = elim (Bool-cases (leb (length txs) max_pending)) [
    | inl h ↦
        rw (length-map {B = Transaction × List ℕ} (λ (tx : Transaction). (tx, r.perm tx)) txs, h)
          refl
    | inr h ↦
        rw (length-map {B = Transaction × List ℕ} (λ (tx : Transaction). (tx, r.perm tx)) txs, h)
          refl
  ]

  module _ (d : ℤ) where
    submissions-submit_all :
        (r : Responses) (peer : Bytes) (peers : List Bytes) (txs : List Transaction)
        (es : List Event) (p : Process)
        → process_run codecs d
            (submissions r txs ++ es)
            (record p { sync = submit_stage (peer ∷ peers) txs })
          ≡ process_run codecs d es (record p {
            engine = submit_all r.env (map (λ tx. (tx, r.perm tx)) txs) p.engine;
            sync = first_peer peers;
          })
    unfolding process_run process_step on_submit submit_all
    submissions-submit_all r peer peers [] es p = rw (after_peer-first_peer peer peers) refl
    submissions-submit_all r peer peers (tx ∷ txs) es p =
        submissions-submit_all r peer peers txs es (record p {
          engine = (submit_transaction (record r.env { perm = r.perm tx }) tx p.engine).1;
        })

    module _ (responses : Bytes → Responses) where
      abbrev answers : Bytes → Answer
      answers peer = answer_of (responses peer)

      peer_events-sync_peers :
          (peers : List Bytes) (p : Process)
          → process_run codecs d
              (peer_events responses peers)
              (record p { sync = first_peer peers })
            ≡ record p { engine = sync_peers answers peers p.engine; sync = waiting }
      unfolding process_run process_step on_deadline on_chain on_pool sync_peers
      peer_events-sync_peers [] p = refl
      peer_events-sync_peers (peer ∷ peers) p =
          let r = responses peer in
          let txs = accepted_pool (get codecs.pool max_pool_bytes r.pool) in
          let g = sync_chain r.env (get codecs.chain max_response_bytes r.chain) p.engine in
          elim (Bool-cases r.expired) [
            | inl h ↦ rw (h, sync_peers) refl
            | inr h ↦
                rw
                  (
                    h,
                    sync_peers,
                    sync_pending-with_perms r (get codecs.pool max_pool_bytes r.pool) g,
                  )
                  (submissions-submit_all r peer peers txs (peer_events responses peers)
                      (record p { engine = g })
                    ∙ peer_events-sync_peers peers (record p {
                      engine = submit_all r.env (map (λ tx. (tx, r.perm tx)) txs) g;
                    }))
          ]

      -- If nothing else happens between them, the steps of a sync that the ticker of `Run`
      -- begins, one for each response and each transaction, come to the same as one call of
      -- `ResolveConflicts` that gets these responses, and the loop waits again.
      pub sync_tick-resolve_conflicts :
          (p : Process)
          → p.sync ≡ waiting
          → process_run codecs d (sync_tick ∷ peer_events responses (rotated_peers p.engine)) p
            ≡ record p { engine = resolve_conflicts false answers p.engine }
      unfolding process_run process_step on_tick resolve_conflicts
      sync_tick-resolve_conflicts p idle = rw idle (
          peer_events-sync_peers (rotated_peers p.engine)
            (record p { engine = advance_peer p.engine }))
