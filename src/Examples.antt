-- ===== src/Examples.antt =====
-- A small network for the tests: difficulty 1, the genesis block, one mined block and two peers.
pub mod Facts
pub mod Runs
mod Ledgers
mod Stores
mod Engines
mod Nodes
mod Peers
mod Blocks
mod Configs
mod Processes
mod Startups
mod Agreements
use distributed_p2p_ledger.Base.{
  ℕ, ◌*◌, ◌^◌, ◌==ₛ◌, ◌≡◌, refl, Bool, true, false, List, [], ◌∷◌, Bytes, codes, ℤ, pos, slice,
  Option, some, none, Result, ok, err,
}
use distributed_p2p_ledger.Json.{JsonDecoder}
use distributed_p2p_ledger.Models.Transaction.{Transaction}
use distributed_p2p_ledger.Models.Block.{Block, create_genesis_block, validate_block}
use distributed_p2p_ledger.Models.Chain.{encode_chain}
use distributed_p2p_ledger.Mempool.{new_mempool}
use distributed_p2p_ledger.Storage.{Store}
use distributed_p2p_ledger.Storage.ChainFile.{Faults, Disk}
use distributed_p2p_ledger.Gossip.{Engine, Env, new_local_engine}
use distributed_p2p_ledger.Gossip.Http.{Response}
use distributed_p2p_ledger.Api.{Request}
use distributed_p2p_ledger.Node.Process.{Codecs}
use distributed_p2p_ledger.Node.Config.{Parsers, NodeConfig}

abbrev pub noon : ℕ
noon = 1767225600

abbrev pub genesis : Block
genesis = create_genesis_block (pos 1 ∷ [])

abbrev pub payment : Transaction
payment = record { id = codes "a"; data_text = codes "pay 21"; timestamp = pos 1 }

abbrev pub mined : Block
mined = record {
  version = pos 1;
  difficulty = pos 1;
  index = pos 1;
  timestamp = pos noon;
  transactions = slice (payment ∷ []);
  prev_hash = codes "fbedbbfd6bddbdfe249e9ac0fe10888950b28bb6e63f2b80a45c803708355977";
  hash = codes "01837a9c507cb4bb311bc1192fd430e393c3fa72471cc688caa83afc62a0d9c4";
  nonce = 2;
}

abbrev pub all_well : Faults
all_well = record {
  create = true;
  write = true;
  written = 0;
  sync = true;
  close = true;
  rename = true;
}

abbrev pub at_noon : Env
at_noon = record { now = noon; io = all_well; perm = 1 ∷ 0 ∷ [] }

abbrev pub genesis_store : Store
genesis_store = record {
  chain = genesis ∷ [];
  tx_ids = [];
  difficulty = pos 1;
  disk = record { file = some (encode_chain (genesis ∷ [])); temp = none; seen = [] };
}

abbrev pub fresh_engine : Engine
fresh_engine = record (new_local_engine new_mempool genesis_store) {
  peers = codes "http://b" ∷ codes "http://c" ∷ [];
}

-- A decoder that reads one value from every text.
abbrev pub always : {A : Type 0} → A → JsonDecoder A
always value = record { first = λ raw. some value; at_end = λ raw. true }

-- 127.0.0.1 is the only IP address, durations are ten seconds, and every URL is http://a.
abbrev pub parsers : Parsers
parsers = record {
  is_ip = λ s. s ==ₛ codes "127.0.0.1";
  duration = λ s. some (pos (10 * 10 ^ 9));
  url = λ s. some (record {
    scheme = codes "http";
    hostname = codes "a";
    has_user = false;
    path = [];
    raw_query = [];
    fragment = [];
  });
}

abbrev pub small_config : NodeConfig
small_config = record {
  bind_ip = codes "127.0.0.1";
  listen_port = pos 8081;
  node_addr = codes "http://localhost:8081";
  peers_file = [];
  chain_file = codes "data/chain_8081.json";
  required_zeros = pos 1;
  mine_every = pos (10 * 10 ^ 9);
  sync_every = pos (10 * 10 ^ 9);
  healthcheck = false;
}

abbrev pub json_request : Request
json_request = record { media = some (codes "application/json"); body = codes "{}"; broken = false }

abbrev pub chain_response : Response
chain_response = record { status = 200; body = codes "{}"; broken = false }

abbrev pub codecs : Codecs
codecs = record {
  requests = record { transaction = always payment; block = always mined };
  chain = always (genesis ∷ mined ∷ []);
  pool = always (payment ∷ []);
}
