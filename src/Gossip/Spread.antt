-- ===== src/Gossip/Spread.antt =====
-- A block that one node accepts is accepted by every node with the same chain.
use distributed_p2p_ledger.Base.{
  ℕ, ◌≤◌, ◌≡◌, refl, sym, ap, ◌∙◌, ◌++◌, ◌∷◌, [], List, length, has, Apart-ext, ok,
}
use distributed_p2p_ledger.Models.Block.{Block, ids}
use distributed_p2p_ledger.Models.Block.Validity.{IsValidBlock, validate_block_iff}
use distributed_p2p_ledger.Models.Chain.{encode_chain, chain_ids}
use distributed_p2p_ledger.Storage.{Store}
use distributed_p2p_ledger.Storage.ChainFile.{max_chain_bytes}
use distributed_p2p_ledger.Storage.Save.{AllSucceed}
use distributed_p2p_ledger.Storage.Invariant.{IsValidStore}
use distributed_p2p_ledger.Storage.Extends.{Extends, Extends-later}
use distributed_p2p_ledger.Storage.Append.{add_block-ok, add_block_appends}
use distributed_p2p_ledger.Gossip.{Engine, Env, handle_incoming_block}
use distributed_p2p_ledger.Gossip.Invariant.{IsValidEngine}
use distributed_p2p_ledger.Gossip.Receive.{
  accepted_append, handle_incoming_block-result, handle_incoming_block-ok,
}

-- A block that extends the chain is accepted, if it can be saved.
pub handle_incoming_block-accepts :
    {horizon : ℕ} (env : Env) (b prev : Block) (g : Engine)
    → IsValidEngine horizon g
    → Extends env.now b prev g.chain_store
    → AllSucceed env.io
    → length (encode_chain (g.chain_store.chain ++ b ∷ [])) ≤ max_chain_bytes
    → (handle_incoming_block env b g).0 ≡ ok tt
handle_incoming_block-accepts env b prev g v x io fits =
    let (added, _) = add_block_appends env.now env.io b g.chain_store v.store prev x io fits in
    let valid = (validate_block_iff env.now b g.chain_store.difficulty).1 x.valid in
    handle_incoming_block-result env b g ∙ rw (valid, added) refl

-- Stores with the same chain and difficulty are extended by the same blocks.
Extends-same :
    {horizon horizon' now : ℕ} {b prev : Block} (s t : Store)
    → IsValidStore horizon s
    → IsValidStore horizon' t
    → t.chain ≡ s.chain
    → t.difficulty ≡ s.difficulty
    → Extends now b prev s
    → Extends now b prev t
Extends-same {b} s t v u chain difficulty x = record {
  valid = rw difficulty x.valid;
  tip = rw chain x.tip;
  index = x.index;
  prev_hash = x.prev_hash;
  timestamp = x.timestamp;
  new_ids =
      Apart-ext (ids b) s.tx_ids t.tx_ids
        (λ k. u.indexed k ∙ ap (λ (c : List Block). has (chain_ids c) k) chain ∙ sym (v.indexed k))
        x.new_ids;
}

-- The two nodes, and what they have in common.
module _ {horizon horizon' : ℕ} (env env' : Env) (b : Block) (g t : Engine)
    (v : IsValidEngine horizon g) (u : IsValidEngine horizon' t)
    (chain : t.chain_store.chain ≡ g.chain_store.chain)
    (difficulty : t.chain_store.difficulty ≡ g.chain_store.difficulty) (le : env.now ≤ env'.now)
    (io : AllSucceed env'.io) (accepted : (handle_incoming_block env b g).0 ≡ ok tt) where
  pub handle_incoming_block-Spreads :
      ((handle_incoming_block env' b t).0 ≡ ok tt)
      × ((handle_incoming_block env' b t).1.chain_store.chain
          ≡ (handle_incoming_block env b g).1.chain_store.chain)
      × IsValidBlock env.now b t.chain_store.difficulty
  handle_incoming_block-Spreads =
      let (_, added) = accepted_append env b g accepted in
      let (prev, x, _, fits, _) = add_block-ok env.now env.io b g.chain_store v.store added in
      let (_, _, first) = handle_incoming_block-ok env b g v accepted in
      let extends = Extends-same g.chain_store t.chain_store v.store u.store chain difficulty x in
      let too =
        handle_incoming_block-accepts env' b prev t u (Extends-later le extends) io
          (rw chain fits) in
      let (_, _, second) = handle_incoming_block-ok env' b t u too in
      (
        too,
        second.appended.chain
            ∙ ap (λ (c : List Block). c ++ b ∷ []) chain
            ∙ sym first.appended.chain,
        extends.valid,
      )
