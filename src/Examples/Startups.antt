-- ===== src/Examples/Startups.antt =====
-- The theorems on the start and the end of a node, at a node that serves one request.
use distributed_p2p_ledger.Base.{
  if◌then◌else◌, ◌+◌, ==ₛ_refl, has_prefix, has, ◌+ℤ◌, max_ℤ, lookup, insert,
}
use distributed_p2p_ledger.Text.{trim_space, valid_string}
use distributed_p2p_ledger.Models.Transaction.{validate_transaction, bad_text}
use distributed_p2p_ledger.Models.Block.{validate_block, check_transactions}
use distributed_p2p_ledger.Mempool.{try_add, check_add, get_pending, sort_by_id, remove}
use distributed_p2p_ledger.Storage.{
  Store, transaction_exists, last_block, get_latest_block, add_block, check_append, commit_append,
  check_new, set_ids, clone_chain,
}
use distributed_p2p_ledger.Storage.ChainFile.{save_unlocked}
use distributed_p2p_ledger.Storage.Restart.{ReadsBack}
use distributed_p2p_ledger.Gossip.{
  submit_transaction, relay_transaction, admit, broadcast, offer_all, offer, select_random_peers,
  mining_work, handle_incoming_block, append_block, relay_block,
}
use distributed_p2p_ledger.Miner.{quiet, hand_over, solve, solve_from}
use distributed_p2p_ledger.Api.{accept, add_transaction, decode}
use distributed_p2p_ledger.Api.Router.{serve, serve_route}
use distributed_p2p_ledger.Node.Process.{
  mine_tick, mine_ends, process_run, process_step, on_mine_tick, begin_mining, on_mined,
  mined_engine, start_mining,
}
use distributed_p2p_ledger.Node.Startup.Durable.{run_node-durable}
use distributed_p2p_ledger.Examples.{mined}
use distributed_p2p_ledger.Base.{
  ◌≤◌, ◌≡◌, ◌↔◌, ◌⊎◌, refl, ap, true, [], ◌∷◌, Bytes, codes, ◌==ₛ◌, All, arith, some, none, Result,
  ok, err, pos, help_requested,
}
use distributed_p2p_ledger.Text.{trim_right_byte}
use distributed_p2p_ledger.Mempool.{new_mempool}
use distributed_p2p_ledger.Storage.{index_from, index_transactions}
use distributed_p2p_ledger.Storage.ChainFile.{Disk}
use distributed_p2p_ledger.Storage.Start.{opened, load, open_file, new_file_chain_storage}
use distributed_p2p_ledger.Models.Block.{
  check_difficulty, create_genesis_block, calculate_hash, encode_header,
}
use distributed_p2p_ledger.Models.Chain.{
  validate_chain, validate_from, deep_equal, encode_chain, encode_block,
}
use distributed_p2p_ledger.Models.Transaction.{encode_transaction}
use distributed_p2p_ledger.Json.{encode_list, encode_int, encode_nat, encode_string, encode_slice}
use distributed_p2p_ledger.Sha.{sum256, encode_to_string}
use distributed_p2p_ledger.Gossip.{Engine, new_local_engine}
use distributed_p2p_ledger.Gossip.Peers.{new_gossip_engine}
use distributed_p2p_ledger.Api.Router.{post_transaction}
use distributed_p2p_ledger.Node.Config.{NodeConfig, parse_config}
use distributed_p2p_ledger.Node.Process.{Event, request}
use distributed_p2p_ledger.Node.Process.Safe.{clock}
use distributed_p2p_ledger.Node.Startup.{
  World, attach, run_started, run_engine, signaled, start_engine, served, run_node, main_node,
}
use distributed_p2p_ledger.Node.Startup.Clean.{IsClean, run_node-IsClean}
use distributed_p2p_ledger.Node.Startup.Exit.{Succeeds, main_node-zero_iff}
use distributed_p2p_ledger.Node.Startup.Serves.{Served, run_node-Served}
use distributed_p2p_ledger.Examples.{
  noon, at_noon, all_well, genesis, genesis_store, json_request, codecs, parsers, small_config,
}

-- A node that reads the genesis block from its file, takes one transaction, and is stopped by a signal.
abbrev world : World
world = record {
  parsers = parsers;
  codecs = codecs;
  now = noon;
  json = record { decode = λ raw. ok (genesis ∷ []); at_end = λ raw. true };
  io = record { stat = true; read = true; mkdir = true; save = all_well };
  peers_content = none;
  health = none;
  listens = true;
  events =
      request
        (record { route = post_transaction; now = noon; env = at_noon; request = json_request })
      ∷ [];
  stop = signaled;
  shuts_down = true;
}

abbrev first_engine : Engine
first_engine =
    record (new_local_engine new_mempool
      (index_transactions (opened (genesis ∷ []) (pos 1) genesis_store.disk))) {
        node_addr = codes "http://localhost:8081";
      }

first_engine_starts : (start_engine world small_config genesis_store.disk).0 ≡ ok first_engine
unfolding start_engine attach new_file_chain_storage open_file load check_difficulty validate_chain
    validate_from deep_equal create_genesis_block calculate_hash encode_header sum256
    encode_to_string encode_chain encode_list encode_block encode_int encode_nat encode_string
    encode_slice encode_transaction index_transactions index_from new_gossip_engine trim_right_byte
    ◌==ₛ◌
first_engine_starts = refl

abbrev disk : Disk
disk = genesis_store.disk

world_runs :
    (run_node world small_config disk).engine ≡ some (served world small_config first_engine)
unfolding run_node run_started run_engine
world_runs =
    ap
      (λ (r : Result Engine).
        (run_started world small_config (r, (start_engine world small_config disk).1)).engine)
      first_engine_starts

world_timely : All (λ (e : Event). clock e ≤ noon) world.events
unfolding clock
world_timely = (omega arith, tt)

run_node-Served_example :
    Served world small_config disk noon (served world small_config first_engine)
run_node-Served_example =
    run_node-Served world small_config disk noon (served world small_config first_engine)
      (omega arith) world_timely world_runs

run_node-IsClean_example : IsClean (run_node world small_config disk).actions
run_node-IsClean_example = run_node-IsClean world small_config disk

abbrev no_variables : Bytes → Bytes
no_variables name = []

main_node-zero_iff_example :
    ((main_node world (codes "-difficulty=1" ∷ []) no_variables disk).0 ≡ 0) ↔ (
      (parse_config parsers (codes "-difficulty=1" ∷ []) no_variables ≡ err help_requested)
      ⊎ ((c : NodeConfig) × (parse_config parsers (codes "-difficulty=1" ∷ []) no_variables ≡ ok c)
          × Succeeds world c disk))
main_node-zero_iff_example = main_node-zero_iff world (codes "-difficulty=1" ∷ []) no_variables disk

-- The same node, which also mines the transaction.
abbrev mining_world : World
mining_world = record world {
  json = record {
    decode = λ raw.
        if raw ==ₛ encode_chain (genesis ∷ mined ∷ [])
        then ok (genesis ∷ mined ∷ [])
        else ok (genesis ∷ []);
    at_end = λ raw. true;
  };
  events =
      request
        (record { route = post_transaction; now = noon; env = at_noon; request = json_request })
      ∷ mine_tick noon
      ∷ mine_ends (λ turn. quiet) at_noon
      ∷ [];
}

mining_timely : All (λ (e : Event). clock e ≤ noon) mining_world.events
unfolding clock
mining_timely = (omega arith, (omega arith, (omega arith, tt)))

abbrev last_engine : Engine
last_engine = served mining_world small_config first_engine

block_is_mined : last_engine.chain_store.chain ≡ genesis ∷ mined ∷ []
unfolding process_run process_step serve serve_route add_transaction accept decode
    submit_transaction relay_transaction admit transaction_exists try_add check_add lookup insert
    validate_transaction bad_text trim_space valid_string broadcast offer_all offer
    select_random_peers on_mine_tick begin_mining mining_work get_latest_block last_block
    get_pending sort_by_id on_mined mined_engine hand_over solve solve_from max_ℤ ◌+ℤ◌ has_prefix
    has start_mining handle_incoming_block append_block relay_block add_block check_append
    commit_append check_new set_ids clone_chain save_unlocked remove validate_block
    check_transactions check_difficulty create_genesis_block calculate_hash encode_header sum256
    encode_to_string encode_chain encode_list encode_block encode_int encode_nat encode_string
    encode_slice encode_transaction index_transactions index_from trim_right_byte ◌==ₛ◌
block_is_mined = refl

mining_starts : (start_engine mining_world small_config disk).0 ≡ ok first_engine
unfolding start_engine attach new_file_chain_storage open_file load check_difficulty validate_chain
    validate_from deep_equal create_genesis_block calculate_hash encode_header sum256
    encode_to_string encode_chain encode_list encode_block encode_int encode_nat encode_string
    encode_slice encode_transaction index_transactions index_from new_gossip_engine trim_right_byte
    ◌==ₛ◌
mining_starts = refl

mining_runs : (run_node mining_world small_config disk).engine ≡ some last_engine
unfolding run_node run_started run_engine
mining_runs =
    ap
      (λ (r : Result Engine).
        (run_started mining_world small_config
          (r, (start_engine mining_world small_config disk).1)).engine)
      mining_starts

mined_read : ReadsBack mining_world.json (genesis ∷ mined ∷ [])
mined_read = record {
  decode = rw (==ₛ_refl (encode_chain (genesis ∷ mined ∷ []))) refl;
  at_end = refl;
}

run_node-durable_example :
    (s : Store) × (new_file_chain_storage
        (noon + 60)
        mining_world.json
        (pos 1 ∷ [])
        mining_world.io
        (run_node mining_world small_config disk).disk
      ≡ (ok s, (run_node mining_world small_config disk).disk))
    × (s.chain ≡ last_engine.chain_store.chain)
run_node-durable_example =
    run_node-durable mining_world small_config disk noon (noon + 60) mining_world.io last_engine
      (omega arith) (omega arith) mining_timely mining_runs (rw block_is_mined mined_read) refl refl
