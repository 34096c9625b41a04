-- ===== src/Gossip/Receive/Keeps.antt =====
-- What `HandleIncomingBlock` keeps.
use distributed_p2p_ledger.Base.{
  ℕ, ◌≡◌, refl, inl, inr, true, [], ◌∷◌, ◌++◌, Bytes, arith, Result-cases, length-append, err,
  Error,
}
use distributed_p2p_ledger.Models.Block.{Block, validate_block}
use distributed_p2p_ledger.Models.Chain.Choice.{longer-better_chain}
use distributed_p2p_ledger.Storage.{add_block}
use distributed_p2p_ledger.Storage.Append.{Appended, SameLedger, SameLedger-refl, add_block_failed}
use distributed_p2p_ledger.Storage.Replace.{Progresses}
use distributed_p2p_ledger.Gossip.{Engine, Env, append_block, handle_incoming_block}
use distributed_p2p_ledger.Gossip.Invariant.{IsValidEngine, knows}
use distributed_p2p_ledger.Gossip.Receive.{
  append_block_refused, relay_block-SameHoldings, handle_invalid, handle_valid,
  handle_incoming_block-result, handle_incoming_block-ok,
}

module _ (env : Env) (b : Block) (g : Engine) where
  -- A block that `HandleIncomingBlock` refuses changes neither chain, index, difficulty and chain
  -- file, nor the pool, nor the generation.
  pub handle_incoming_block_failed :
      (e : Error)
      → (handle_incoming_block env b g).0 ≡ err e
      → SameLedger g.chain_store (handle_incoming_block env b g).1.chain_store
        × ((handle_incoming_block env b g).1.mempool ≡ g.mempool)
        × ((handle_incoming_block env b g).1.generation ≡ g.generation)
  handle_incoming_block_failed e h =
      elim (Result-cases (validate_block env.now b g.chain_store.difficulty)) [
        | inr (e', invalid) ↦
            rw (handle_invalid env b g e' invalid) (SameLedger-refl g.chain_store, refl, refl)
        | inl (_, valid) ↦ elim (Result-cases (add_block env.now env.io b g.chain_store).0) [
          | inl (_, added) ↦ absurd (ground (arith, handle_incoming_block-result env b g))
          | inr (e', refused) ↦
              let same = relay_block-SameHoldings env b g (append_block env b g) in
              let after = append_block_refused env b g e' refused in
              rw (handle_valid env b g valid) (
                rw (same.store, after) (add_block_failed env.now env.io b g.chain_store e' refused),
                rw (same.mempool, after) refl,
                rw (same.generation, after) refl,
              )
        ]
      ]

  -- What was known stays known.
  pub handle_incoming_block-knows :
      {horizon : ℕ} (k : Bytes)
      → IsValidEngine horizon g
      → knows g k ≡ true
      → knows (handle_incoming_block env b g).1 k ≡ true
  handle_incoming_block-knows k v known = elim (Result-cases (handle_incoming_block env b g).0) [
    | inl (_, h) ↦ let (_, _, a) = handle_incoming_block-ok env b g v h in ground (arith, a.known k)
    | inr (e, h) ↦
        let (store, pool, _) = handle_incoming_block_failed e h in rw (pool, store.tx_ids) known
  ]

  -- The chain is the same or better.
  pub handle_incoming_block-Progresses :
      {horizon : ℕ}
      → IsValidEngine horizon g
      → Progresses g.chain_store.chain (handle_incoming_block env b g).1.chain_store.chain
  handle_incoming_block-Progresses v = elim (Result-cases (handle_incoming_block env b g).0) [
    | inl (_, h) ↦
        let (_, _, a) = handle_incoming_block-ok env b g v h in
        inr (
          rw (Appended.chain a.appended) (
            longer-better_chain (g.chain_store.chain ++ b ∷ []) g.chain_store.chain
              (omega (arith, length-append g.chain_store.chain (b ∷ [])))))
    | inr (e, h) ↦ let (store, _, _) = handle_incoming_block_failed e h in inl store.chain
  ]
