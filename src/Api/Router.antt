-- ===== src/Api/Router.antt =====
-- `NewRouter`: the routes and what each of them calls.
use distributed_p2p_ledger.Base.{ℕ, Bytes, codes}
use distributed_p2p_ledger.Json.{JsonDecoder}
use distributed_p2p_ledger.Models.Transaction.{Transaction}
use distributed_p2p_ledger.Models.Block.{Block}
use distributed_p2p_ledger.Gossip.{Engine, Env}
use distributed_p2p_ledger.Api.{
  Request, Reply, add_transaction, gossip_receive, receive_block, get_transaction, get_transactions,
  get_chain_reply, get_mempool, get_status, get_healthz,
}

-- The routes; ":id" in a path is an argument.
pub data Route : Type 0 where
  post_transaction list_transactions : Route
  show_transaction : Bytes → Route
  post_gossip post_block show_chain show_mempool show_health show_status : Route

unfoldable pub method : Route → Bytes
method post_transaction = codes "POST"
method post_gossip = codes "POST"
method post_block = codes "POST"
method _ = codes "GET"

-- What a handler's environment answers: the clock of `ReceiveBlock` itself, and that of the engine.
pub record Call : Type 0 where
  pub route : Route
  pub now : ℕ
  pub env : Env
  pub request : Request

-- The decoders of the two types that requests hold.
pub record Decoders : Type 0 where
  pub transaction : JsonDecoder Transaction
  pub block : JsonDecoder Block

unfoldable pub serve_route : Decoders → Route → ℕ → Env → Request → Engine → Reply × Engine
serve_route json post_transaction now env req g = add_transaction json.transaction env req g
serve_route json post_gossip now env req g = gossip_receive json.transaction env req g
serve_route json post_block now env req g = receive_block json.block now env req g
serve_route json list_transactions now env req g = (get_transactions g, g)
serve_route json (show_transaction id) now env req g = (get_transaction id g, g)
serve_route json show_chain now env req g = (get_chain_reply g, g)
serve_route json show_mempool now env req g = (get_mempool g, g)
serve_route json show_health now env req g = (get_healthz, g)
serve_route json show_status now env req g = (get_status g, g)

unfoldable pub serve : Decoders → Call → Engine → Reply × Engine
serve json c g = serve_route json c.route c.now c.env c.request g
