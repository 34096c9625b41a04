-- ===== src/Gossip/Receive.antt =====
-- `HandleIncomingBlock`.
pub mod Keeps
use distributed_p2p_ledger.Base.{
  ℕ, ◌+◌, ◌≤◌, ◌≡◌, refl, sym, ap, ◌∙◌, inl, inr, ◌⊎◌, Bool-cases, true, not, ◌||◌, ◌&&◌, [], ◌∷◌,
  ◌++◌, Bytes, codes, arith, Apart-of, Apart-has, has, Result, Result-cases, >>=-eq-ok,
  length-append, ok, err, Error, ◌>>◌,
}
use distributed_p2p_ledger.Models.Block.{Block, ids, validate_block}
use distributed_p2p_ledger.Models.Chain.{encode_block}
use distributed_p2p_ledger.Models.Chain.Choice.{longer-better_chain}
use distributed_p2p_ledger.Storage.{add_block}
use distributed_p2p_ledger.Storage.Extends.{Extends}
use distributed_p2p_ledger.Storage.Append.{
  Appended, SameLedger, SameLedger-refl, add_block-ok, add_block_failed, add_block-IsValidStore,
}
use distributed_p2p_ledger.Storage.Replace.{Progresses}
use distributed_p2p_ledger.Mempool.{remove}
use distributed_p2p_ledger.Mempool.Invariant.{pending_ids, remove-IsValidPool, pending_ids-remove}
use distributed_p2p_ledger.Gossip.{
  Engine, Env, append_block, relay_block, handle_incoming_block, is_stale_block,
}
use distributed_p2p_ledger.Gossip.Invariant.{
  SameHoldings-refl, IsValidEngine, knows, SameHoldings, broadcast-SameHoldings,
  request_sync-SameHoldings, SameHoldings-IsValidEngine,
}

module _ (env : Env) (b : Block) (g : Engine) where
  append_block_added :
      (add_block env.now env.io b g.chain_store).0 ≡ ok tt
      → append_block env b g ≡ (
        ok tt,
        record g {
          chain_store = (add_block env.now env.io b g.chain_store).1;
          mempool = remove (ids b) g.mempool;
          generation = g.generation + 1;
        },
      )
  unfolding append_block
  append_block_added h = rw (h, append_block) refl

  append_block_refused :
      (e : Error)
      → (add_block env.now env.io b g.chain_store).0 ≡ err e
      → append_block env b g
        ≡ (err e, record g { chain_store = (add_block env.now env.io b g.chain_store).1 })
  unfolding append_block
  append_block_refused e h = rw (h, append_block) refl

  append_block-IsValidEngine :
      {horizon : ℕ}
      → env.now ≤ horizon
      → IsValidEngine horizon g
      → IsValidEngine horizon (append_block env b g).1
  append_block-IsValidEngine le v =
      let store = add_block-IsValidStore env.now env.io b g.chain_store le v.store in
      elim (Result-cases (add_block env.now env.io b g.chain_store).0) [
        | inl (_, h) ↦
            let (_, _, _, _, a) = add_block-ok env.now env.io b g.chain_store v.store h in
            rw (append_block_added h) (record {
              store = store;
              pool = remove-IsValidPool (ids b) g.mempool v.pool;
              apart =
                  Apart-of (pending_ids (remove (ids b) g.mempool))
                    (add_block env.now env.io b g.chain_store).1.tx_ids
                    (λ k m. ground (
                      arith,
                      pending_ids-remove (ids b) g.mempool k,
                      a.indexed k,
                      Apart-has (pending_ids g.mempool) g.chain_store.tx_ids k v.apart,
                    ));
              jobs = v.jobs;
            })
        | inr (e, h) ↦
            let same = add_block_failed env.now env.io b g.chain_store e h in
            rw (append_block_refused e h) (record {
              store = store;
              pool = v.pool;
              apart = rw same.tx_ids v.apart;
              jobs = v.jobs;
            })
      ]

  relay_block-SameHoldings :
      (r : Result (Unit {0}) × Engine) → SameHoldings r.1 (relay_block env b r).1
  unfolding relay_block
  relay_block-SameHoldings (err e, t) = elim (Bool-cases (is_stale_block e)) [
    | inl stale ↦ rw stale (request_sync-SameHoldings t)
    | inr other ↦ rw other (SameHoldings-refl t)
  ]
  relay_block-SameHoldings (ok _, t) =
      broadcast-SameHoldings env (codes "/block") (encode_block b) t

  relay_block-result : (r : Result (Unit {0}) × Engine) → (relay_block env b r).0 ≡ r.0
  unfolding relay_block
  relay_block-result (err e, t) = refl
  relay_block-result (ok _, t) = refl

  handle_invalid :
      (e : Error)
      → validate_block env.now b g.chain_store.difficulty ≡ err e
      → handle_incoming_block env b g ≡ (err e, g)
  unfolding handle_incoming_block
  handle_invalid e h = rw (h, handle_incoming_block) refl

  handle_valid :
      validate_block env.now b g.chain_store.difficulty ≡ ok tt
      → handle_incoming_block env b g ≡ relay_block env b (append_block env b g)
  unfolding handle_incoming_block
  handle_valid h = rw (h, handle_incoming_block) refl

  -- `HandleIncomingBlock` keeps the engine's invariant on every branch, with a clock reading up
  -- to the horizon.
  pub handle_incoming_block-IsValidEngine :
      {horizon : ℕ}
      → env.now ≤ horizon
      → IsValidEngine horizon g
      → IsValidEngine horizon (handle_incoming_block env b g).1
  handle_incoming_block-IsValidEngine {horizon} le v =
      elim (Result-cases (validate_block env.now b g.chain_store.difficulty)) [
        | inl (_, h) ↦ rw (handle_valid h) (
            SameHoldings-IsValidEngine horizon (append_block env b g).1
              (relay_block env b (append_block env b g)).1
              (relay_block-SameHoldings (append_block env b g)) (append_block-IsValidEngine le v))
        | inr (e, h) ↦ rw (handle_invalid e h) v
      ]

  append_block-result : (append_block env b g).0 ≡ (add_block env.now env.io b g.chain_store).0
  append_block-result = elim (Result-cases (add_block env.now env.io b g.chain_store).0) [
    | inl (_, h) ↦ rw (append_block_added h, h) refl
    | inr (e, h) ↦ rw (append_block_refused e h, h) refl
  ]

  -- The error of a refused block: the validation's, or the store's.
  pub handle_incoming_block-result : (handle_incoming_block env b g).0 ≡ (
      validate_block env.now b g.chain_store.difficulty
      >> (add_block env.now env.io b g.chain_store).0)
  handle_incoming_block-result =
      elim (Result-cases (validate_block env.now b g.chain_store.difficulty)) [
        | inl (_, h) ↦
            rw (handle_valid h, h) (relay_block-result (append_block env b g) ∙ append_block-result)
        | inr (e, h) ↦ rw (handle_invalid e h, h) refl
      ]

  append_block-store :
      (append_block env b g).1.chain_store ≡ (add_block env.now env.io b g.chain_store).1
  append_block-store = elim (Result-cases (add_block env.now env.io b g.chain_store).0) [
    | inl (_, h) ↦ ap (λ r. r.1.chain_store) (append_block_added h)
    | inr (e, h) ↦ ap (λ r. r.1.chain_store) (append_block_refused e h)
  ]

  -- The store is the same, or what `AddBlock` leaves.
  pub handle_incoming_block-store :
      ((handle_incoming_block env b g).1.chain_store ≡ g.chain_store)
      ⊎ ((handle_incoming_block env b g).1.chain_store
          ≡ (add_block env.now env.io b g.chain_store).1)
  handle_incoming_block-store =
      elim (Result-cases (validate_block env.now b g.chain_store.difficulty)) [
        | inr (e, h) ↦ inl (ap (λ r. r.1.chain_store) (handle_invalid e h))
        | inl (_, h) ↦ inr (
            ap (λ r. r.1.chain_store) (handle_valid h)
            ∙ (relay_block-SameHoldings (append_block env b g)).store
            ∙ append_block-store)
      ]

  pub accepted_append :
      (handle_incoming_block env b g).0 ≡ ok tt
      → (validate_block env.now b g.chain_store.difficulty ≡ ok tt)
        × ((add_block env.now env.io b g.chain_store).0 ≡ ok tt)
  accepted_append h =
      let (_, valid, added) =
        >>=-eq-ok (validate_block env.now b g.chain_store.difficulty)
          (λ _. (add_block env.now env.io b g.chain_store).0)
          (sym handle_incoming_block-result ∙ h) in
      (valid, added)

-- What an accepted block changes: it is the new tip, its transactions are confirmed and no longer
-- pending, and the miner is told.
pub record Accepted (b : Block) (g t : Engine) : Type 0 where
  pub appended : Appended b g.chain_store t.chain_store
  pub pending :
      (k : Bytes)
      → has (pending_ids t.mempool) k ≡ (not (has (ids b) k) && has (pending_ids g.mempool) k)
  pub known : (k : Bytes) → knows t k ≡ (has (ids b) k || knows g k)
  pub generation : t.generation ≡ g.generation + 1

module _ (env : Env) (b : Block) (g : Engine) where
  -- On an engine that satisfies the invariant, a block that `HandleIncomingBlock` accepts extends
  -- the chain: it is appended and saved, its transactions are confirmed and no longer pending, no
  -- other ID becomes known or forgotten, and the generation goes up by one.
  pub handle_incoming_block-ok :
      {horizon : ℕ}
      → IsValidEngine horizon g
      → (handle_incoming_block env b g).0 ≡ ok tt
      → (prev : Block) × Extends env.now b prev g.chain_store
        × Accepted b g (handle_incoming_block env b g).1
  handle_incoming_block-ok v h =
      let (valid, added) = accepted_append env b g h in
      let (prev, x, _, _, a) = add_block-ok env.now env.io b g.chain_store v.store added in
      let same : SameHoldings (append_block env b g).1 (handle_incoming_block env b g).1 =
        rw (handle_valid env b g valid) (relay_block-SameHoldings env b g (append_block env b g)) in
      let after = append_block_added env b g added in
      let pool = λ (k : Bytes). pending_ids-remove (ids b) g.mempool k in
      let mempool : (handle_incoming_block env b g).1.mempool ≡ remove (ids b) g.mempool =
        same.mempool ∙ ap (λ (r : Result (Unit {0}) × Engine). r.1.mempool) after in
      let store : (handle_incoming_block env b g).1.chain_store
          ≡ (add_block env.now env.io b g.chain_store).1 =
        same.store ∙ ap (λ (r : Result (Unit {0}) × Engine). r.1.chain_store) after in
      (
        prev,
        x,
        record {
          appended = rw store a;
          pending = λ k. rw mempool (pool k);
          known = λ k. rw (mempool, store) (ground (arith, pool k, a.indexed k));
          generation =
              same.generation ∙ ap (λ (r : Result (Unit {0}) × Engine). r.1.generation) after;
        },
      )
