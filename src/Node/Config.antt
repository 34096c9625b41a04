-- ===== src/Node/Config.antt =====
-- `ParseConfig`: flags before environment variables before defaults, and the checks of each value.
-- net.ParseIP, time.ParseDuration and url.Parse are arguments.
pub mod Valid
use distributed_p2p_ledger.Base.{
  ℕ, ◌*◌, ◌^◌, ◌≡◌, refl, Bool, true, false, not, ◌&&◌, ◌||◌, List, [], ◌∷◌, ◌++◌, Bytes, codes,
  ◌==ₛ◌, if◌then◌else◌, ℤ, pos, ltb_ℤ, Option, none, some, Error, Result, ok, err, ◌>>=◌, ◌>>◌,
  reject, positional_arguments, invalid_bind, invalid_port, not_an_integer, invalid_mining_interval,
  invalid_sync_interval, invalid_address,
}
use distributed_p2p_ledger.Text.{atoi, trim_right_byte}
use distributed_p2p_ledger.Json.{encode_int}
use distributed_p2p_ledger.Models.Block.{check_difficulty}
use distributed_p2p_ledger.Gossip.Peers.{Url}
use distributed_p2p_ledger.Node.Flags.{
  Flag, bind, port, addr, peers, chain, difficulty, mine_interval, sync_interval, Settings,
  parse_flags,
}

-- Whether net.ParseIP returns an address; the nanoseconds of time.ParseDuration; url.Parse.
pub record Parsers : Type 0 where
  pub is_ip : Bytes → Bool
  pub duration : Bytes → Option ℤ
  pub url : Bytes → Option Url

pub record NodeConfig : Type 0 where
  pub bind_ip : Bytes
  pub listen_port : ℤ
  pub node_addr : Bytes
  pub peers_file : Bytes
  pub chain_file : Bytes
  pub required_zeros : ℤ
  pub mine_every : ℤ
  pub sync_every : ℤ
  pub healthcheck : Bool

-- `env`: the variable, unless it is empty.
abbrev pub env_or : (Bytes → Bytes) → Bytes → Bytes → Bytes
env_or lookup k default_value = if lookup k ==ₛ [] then default_value else lookup k

-- What the flags are before the command line is read.
unfoldable pub default_value : (Bytes → Bytes) → Flag → Bytes
default_value lookup bind = env_or lookup (codes "BIND_ADDR") (codes "127.0.0.1")
default_value lookup port = env_or lookup (codes "PORT") (codes "8080")
default_value lookup addr = env_or lookup (codes "NODE_ADDR") []
default_value lookup peers = env_or lookup (codes "PEERS_FILE") []
default_value lookup chain =
    env_or lookup (codes "CHAIN_FILE") (env_or lookup (codes "LEDGER_FILE") [])
default_value lookup difficulty = env_or lookup (codes "DIFFICULTY") (codes "2")
default_value lookup mine_interval = env_or lookup (codes "MINE_INTERVAL") (codes "10s")
default_value lookup sync_interval = env_or lookup (codes "SYNC_INTERVAL") (codes "5s")

abbrev pub default_settings : (Bytes → Bytes) → Settings
default_settings lookup = record { value = default_value lookup; healthcheck = false }

abbrev pub is_empty : List Bytes → Bool
is_empty [] = true
is_empty (arg ∷ args) = false

-- The value of a library function that may fail, or the error that the code makes then.
abbrev pub or_error {ℓ} : {A : Type ℓ} → Error → Option A → Result A
or_error e none = err e
or_error e (some a) = ok a

unfoldable pub parse_port : Bytes → Result ℤ
parse_port s = do
  p ← or_error invalid_port (atoi s)
  reject (ltb_ℤ p (pos 1) || ltb_ℤ (pos 65535) p) invalid_port
  ok p

-- 100*time.Millisecond
abbrev pub min_interval : ℤ
min_interval = pos (100 * 10 ^ 6)

unfoldable pub check_interval : Error → Option ℤ → Result ℤ
check_interval e d = do n ← or_error e d; reject (ltb_ℤ n min_interval) e; ok n

unfoldable pub is_node_url : Option Url → Bool
is_node_url none = false
is_node_url (some u) =
    (u.scheme ==ₛ codes "http" || u.scheme ==ₛ codes "https")
    && not (u.hostname ==ₛ [])
    && not u.has_user
    && (trim_right_byte b'/' u.path ==ₛ [])
    && (u.raw_query ==ₛ [])
    && (u.fragment ==ₛ [])

-- The advertised address, where none is given.
abbrev pub address_or : Bytes → ℤ → Bytes
address_or given p = if given ==ₛ [] then codes "http://localhost:" ++ encode_int p else given

-- filepath.Join("data", "chain_<port>.json"), where no file is given.
abbrev pub chain_file_or : Bytes → ℤ → Bytes
chain_file_or given p =
    if given ==ₛ [] then codes "data/chain_" ++ (encode_int p ++ codes ".json") else given

-- The configuration of checked numbers.
abbrev pub config_of : Settings → ℤ → ℤ → ℤ → ℤ → NodeConfig
config_of s p d mine sync = record {
  bind_ip = s.value bind;
  listen_port = p;
  node_addr = trim_right_byte b'/' (address_or (s.value addr) p);
  peers_file = s.value peers;
  chain_file = chain_file_or (s.value chain) p;
  required_zeros = d;
  mine_every = mine;
  sync_every = sync;
  healthcheck = s.healthcheck;
}

-- The checks behind `fs.Parse`, in their order.
unfoldable pub check_settings : Parsers → Settings → Result NodeConfig
check_settings parse s = do
  reject (not (parse.is_ip (s.value bind))) invalid_bind
  p ← parse_port (s.value port)
  d ← or_error not_an_integer (atoi (s.value difficulty))
  check_difficulty d
  mine ← check_interval invalid_mining_interval (parse.duration (s.value mine_interval))
  sync ← check_interval invalid_sync_interval (parse.duration (s.value sync_interval))
  reject (not (is_node_url (parse.url (address_or (s.value addr) p)))) invalid_address
  ok (config_of s p d mine sync)

unfoldable pub parse_config : Parsers → List Bytes → (Bytes → Bytes) → Result NodeConfig
parse_config parse args lookup = do
  parsed ← parse_flags none args (default_settings lookup)
  reject (not (is_empty parsed.1)) positional_arguments
  check_settings parse parsed.0
