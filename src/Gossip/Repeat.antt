-- ===== src/Gossip/Repeat.antt =====
-- A block that comes a second time, as gossip brings it from several peers.
use distributed_p2p_ledger.Base.{
  ℕ, ◌≤◌, ◌≡◌, refl, ap, ◌∙◌, false, List, [], ◌∷◌, ◌++◌, arith, ℤ, pos, negsuc, ◌==ℤ◌, ◌≤ℤ◌, ◌<ℤ◌,
  ◌+ℤ◌, +ℤ_small, last_or-append, Result, ok, err, stale_block,
}
use distributed_p2p_ledger.Models.Block.{Block, validate_block, max_chain_blocks}
use distributed_p2p_ledger.Models.Block.Validity.{
  IsValidBlock, IsValidBlock-later, validate_block_iff,
}
use distributed_p2p_ledger.Storage.{Store, last_block, check_append, add_block}
use distributed_p2p_ledger.Storage.ChainFile.{Faults}
use distributed_p2p_ledger.Storage.Append.{Appended}
use distributed_p2p_ledger.Gossip.{
  Engine, Env, append_block, relay_block, handle_incoming_block, is_stale_block, request_sync,
}
use distributed_p2p_ledger.Gossip.Invariant.{IsValidEngine}
use distributed_p2p_ledger.Gossip.Receive.{handle_incoming_block-ok}

last_block-append : (chain : List Block) (b : Block) → last_block (chain ++ b ∷ []) ≡ ok b
unfolding last_block
last_block-append [] b = refl
last_block-append (first ∷ chain) b = ap ok (last_or-append first b chain)

next_index-differs : (i : ℤ) → pos 1 ≤ℤ i → i <ℤ pos max_chain_blocks → (i ==ℤ i +ℤ pos 1) ≡ false
next_index-differs (pos n) low high = rw (+ℤ_small n 1 (omega (arith, high))) (ground arith)
next_index-differs (negsuc n) low high = absurd (omega arith)

add_block_stale :
    (now : ℕ) (io : Faults) (b : Block) (s : Store)
    → IsValidBlock now b s.difficulty
    → last_block s.chain ≡ ok b
    → add_block now io b s ≡ (err stale_block, s)
unfolding add_block check_append
add_block_stale now io b s v tip = ground (
  arith,
  (validate_block_iff now b s.difficulty).1 v,
  tip,
  next_index-differs b.index v.index_range.0 v.index_range.1,
)

append_block_stale :
    (env : Env) (b : Block) (t : Engine)
    → add_block env.now env.io b t.chain_store ≡ (err stale_block, t.chain_store)
    → append_block env b t ≡ (err stale_block, t)
unfolding append_block
append_block_stale env b t stale =
    rw (ap (λ (r : Result (Unit {0}) × Store). r.0) stale, append_block)
      (ap (λ (s : Store). (err stale_block, record t { chain_store = s }))
        (ap (λ (r : Result (Unit {0}) × Store). r.1) stale))

relay_block_stale :
    (env : Env) (b : Block) (t : Engine)
    → relay_block env b (err stale_block, t) ≡ (err stale_block, request_sync t)
unfolding relay_block is_stale_block
relay_block_stale env b t = refl

handle_stale :
    (env : Env) (b : Block) (t : Engine)
    → validate_block env.now b t.chain_store.difficulty ≡ ok tt
    → add_block env.now env.io b t.chain_store ≡ (err stale_block, t.chain_store)
    → handle_incoming_block env b t ≡ (err stale_block, request_sync t)
unfolding handle_incoming_block
handle_stale env b t valid stale =
    rw (valid, handle_incoming_block)
      (ap (relay_block env b) (append_block_stale env b t stale) ∙ relay_block_stale env b t)

-- On an engine that satisfies the invariant: a block that was accepted, received again at the
-- same or a later time, is refused as stale, is not relayed a second time, and changes nothing
-- but that a sync is requested.
pub handle_incoming_block-again :
    {horizon : ℕ} (env later : Env) (b : Block) (g : Engine)
    → env.now ≤ later.now
    → IsValidEngine horizon g
    → (handle_incoming_block env b g).0 ≡ ok tt
    → handle_incoming_block later b (handle_incoming_block env b g).1
      ≡ (err stale_block, request_sync (handle_incoming_block env b g).1)
handle_incoming_block-again env later b g le v accepted =
    let t = (handle_incoming_block env b g).1 in
    let (prev, x, a) = handle_incoming_block-ok env b g v accepted in
    let valid : IsValidBlock later.now b t.chain_store.difficulty =
      rw (Appended.difficulty a.appended)
        (IsValidBlock-later env.now later.now b g.chain_store.difficulty le x.valid) in
    let tip : last_block t.chain_store.chain ≡ ok b =
      ap last_block (Appended.chain a.appended) ∙ last_block-append g.chain_store.chain b in
    handle_stale later b t ((validate_block_iff later.now b t.chain_store.difficulty).1 valid)
      (add_block_stale later.now later.io b t.chain_store valid tip)
