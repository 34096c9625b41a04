-- ===== src/Api/Relay.antt =====
-- A block that a node relays to a peer.
use distributed_p2p_ledger.Base.{ℕ, ◌≤◌, ◌≡◌, inr, ok, arith}
use distributed_p2p_ledger.Json.{JsonDecoder}
use distributed_p2p_ledger.Models.Block.{Block, validate_block}
use distributed_p2p_ledger.Models.Block.Validity.{IsValidBlock-later, validate_block_iff}
use distributed_p2p_ledger.Storage.Save.{AllSucceed}
use distributed_p2p_ledger.Gossip.{Engine, Env, handle_incoming_block}
use distributed_p2p_ledger.Gossip.Invariant.{IsValidEngine}
use distributed_p2p_ledger.Gossip.Spread.{handle_incoming_block-Spreads}
use distributed_p2p_ledger.Api.{Request, decode, receive_block}

receive_block-handled :
    (json : JsonDecoder Block) (now : ℕ) (env : Env) (req : Request) (b : Block) (g : Engine)
    → decode json req ≡ inr b
    → validate_block now b g.chain_store.difficulty ≡ ok tt
    → (handle_incoming_block env b g).0 ≡ ok tt
    → ((receive_block json now env req g).0.code ≡ 202)
      × ((receive_block json now env req g).1 ≡ (handle_incoming_block env b g).1)
unfolding receive_block
receive_block-handled json now env req b g decoded valid accepted = (ground arith, ground arith)

-- A block that one node accepts, sent to a second node that has the same chain and difficulty,
-- both satisfying the invariant, with clocks that are not behind the first: if the request
-- decodes to the block and saving it succeeds, the second answers 202, and the two nodes have the
-- same chain again.
pub receive_block-Spreads :
    {horizon horizon' : ℕ} (json : JsonDecoder Block) (now : ℕ) (env env' : Env) (req : Request)
    (b : Block) (g t : Engine)
    → IsValidEngine horizon g
    → IsValidEngine horizon' t
    → t.chain_store.chain ≡ g.chain_store.chain
    → t.chain_store.difficulty ≡ g.chain_store.difficulty
    → env.now ≤ now
    → env.now ≤ env'.now
    → AllSucceed env'.io
    → (handle_incoming_block env b g).0 ≡ ok tt
    → decode json req ≡ inr b
    → ((receive_block json now env' req t).0.code ≡ 202)
      × ((receive_block json now env' req t).1.chain_store.chain
          ≡ (handle_incoming_block env b g).1.chain_store.chain)
receive_block-Spreads json now env env' req b g t v u chain difficulty le le' io accepted decoded =
    let (too, same, valid) =
      handle_incoming_block-Spreads env env' b g t v u chain difficulty le' io accepted in
    let valid_now =
      (validate_block_iff now b t.chain_store.difficulty).1
        (IsValidBlock-later env.now now b t.chain_store.difficulty le valid) in
    let (code, handled) = receive_block-handled json now env' req b t decoded valid_now too in
    (code, rw handled same)
