-- ===== src/Examples/Runs.antt =====
-- Calls on the small network, and what they return.
use distributed_p2p_ledger.Base.{
  ◌≡◌, refl, arith, false, [], ◌∷◌, length, has, has_prefix, ◌==ₛ◌, ltb_ₛ, pos, ◌+ℤ◌, ok, err,
  lookup, insert, not_better, stale_block,
}
use distributed_p2p_ledger.Text.{trim_space, valid_string}
use distributed_p2p_ledger.Sha.{sum256, encode_to_string}
use distributed_p2p_ledger.Json.{encode_int, encode_nat, encode_string, encode_slice, encode_list}
use distributed_p2p_ledger.Models.Transaction.{
  bad_text, validate_transaction, encode_transaction, same_transaction,
}
use distributed_p2p_ledger.Models.Block.{
  create_genesis_block, encode_header, calculate_hash, check_difficulty, check_transactions,
  validate_block,
}
use distributed_p2p_ledger.Models.Chain.{
  deep_equal, mark_transactions, validate_from, validate_chain, tip_hash, better_chain,
  encode_block, encode_chain,
}
use distributed_p2p_ledger.Mempool.{
  check_add, try_add, sort_by_id, get_pending, keep_blocks, confirm_blocks, prepare_reorg,
}
use distributed_p2p_ledger.Mempool.Invariant.{new_mempool-IsValidPool}
use distributed_p2p_ledger.Storage.{
  clone_chain, get_chain, last_block, check_new, set_ids, check_append, commit_append, add_block,
  index_from, index_transactions, check_replace, commit_replace, replace_chain, transaction_exists,
}
use distributed_p2p_ledger.Storage.ChainFile.{Faults, save_unlocked}
use distributed_p2p_ledger.Storage.Invariant.{IsValidStore, IsSaved}
use distributed_p2p_ledger.Gossip.{
  Engine, admit, relay_transaction, submit_transaction, append_block, relay_block,
  handle_incoming_block, check_adopt, commit_adopt, adopt, broadcast, offer_all, offer,
  select_random_peers,
}
use distributed_p2p_ledger.Gossip.Invariant.{IsValidEngine}
use distributed_p2p_ledger.Gossip.Submit.{submit_transaction-IsValidEngine}
use distributed_p2p_ledger.Gossip.Receive.{handle_incoming_block-IsValidEngine}
use distributed_p2p_ledger.Examples.{
  noon, genesis, payment, mined, all_well, at_noon, genesis_store, fresh_engine,
}

-- A disk on which the last step of a save fails.
abbrev pub no_rename : Faults
no_rename = record all_well { rename = false }

pub genesis_store-IsValidStore : IsValidStore noon genesis_store
unfolding create_genesis_block
genesis_store-IsValidStore = record {
  ledger = record {
    difficulty_range = (omega arith, omega arith);
    short = omega arith;
    genesis = refl;
    linked = tt;
    distinct_ids = tt;
  };
  indexed = λ k. refl;
}

genesis_fits : length (encode_chain (genesis ∷ [])) ≡ 180
unfolding encode_chain encode_list encode_block encode_int encode_nat encode_string encode_slice
    encode_transaction create_genesis_block calculate_hash encode_header sum256 encode_to_string
genesis_fits = refl

pub genesis_store-IsSaved : IsSaved genesis_store
genesis_store-IsSaved = record { file = refl; fits = omega (arith, genesis_fits) }

pub fresh_engine-IsValidEngine : IsValidEngine noon fresh_engine
fresh_engine-IsValidEngine = record {
  store = genesis_store-IsValidStore;
  pool = new_mempool-IsValidPool;
  apart = tt;
  jobs = omega arith;
}

-- After a client's transaction, and after a peer's block that confirms it.
abbrev pub submitted : Engine
submitted = (submit_transaction at_noon payment fresh_engine).1

pub submitted-IsValidEngine : IsValidEngine noon submitted
submitted-IsValidEngine =
    submit_transaction-IsValidEngine noon at_noon payment fresh_engine fresh_engine-IsValidEngine

abbrev pub confirmed : Engine
confirmed = (handle_incoming_block at_noon mined submitted).1

pub confirmed-IsValidEngine : IsValidEngine noon confirmed
confirmed-IsValidEngine =
    handle_incoming_block-IsValidEngine at_noon mined submitted (omega arith)
      submitted-IsValidEngine

pub submit_succeeds : (submit_transaction at_noon payment fresh_engine).0 ≡ ok tt
unfolding submit_transaction admit relay_transaction try_add check_add lookup insert
    transaction_exists has validate_transaction bad_text trim_space valid_string ◌==ₛ◌
submit_succeeds = refl

pub add_succeeds : (add_block noon all_well mined genesis_store).0 ≡ ok tt
unfolding add_block check_append commit_append last_block check_new set_ids clone_chain ◌+ℤ◌
    save_unlocked encode_chain encode_list encode_block validate_block create_genesis_block
    check_difficulty check_transactions validate_transaction bad_text trim_space valid_string
    calculate_hash encode_header encode_transaction encode_int encode_nat encode_string encode_slice
    sum256 encode_to_string ◌==ₛ◌ has has_prefix
add_succeeds = refl

pub chain_is_valid : validate_chain noon (genesis ∷ mined ∷ []) (pos 1) ≡ ok tt
unfolding validate_chain validate_from mark_transactions deep_equal same_transaction validate_block
    create_genesis_block check_difficulty check_transactions validate_transaction bad_text
    trim_space valid_string calculate_hash encode_header encode_transaction encode_int encode_nat
    encode_string encode_slice sum256 encode_to_string ◌==ₛ◌ has has_prefix
chain_is_valid = refl

pub replace_succeeds : (replace_chain noon all_well (genesis ∷ mined ∷ []) genesis_store).0 ≡ ok tt
unfolding replace_chain check_replace commit_replace index_transactions index_from better_chain
    validate_chain validate_from mark_transactions deep_equal same_transaction validate_block
    create_genesis_block check_difficulty check_transactions validate_transaction bad_text
    trim_space valid_string calculate_hash encode_header encode_transaction encode_int encode_nat
    encode_string encode_slice sum256 encode_to_string ◌==ₛ◌ has has_prefix set_ids save_unlocked
    encode_chain encode_list encode_block clone_chain
replace_succeeds = refl

pub receive_succeeds : (handle_incoming_block at_noon mined submitted).0 ≡ ok tt
unfolding handle_incoming_block append_block relay_block submit_transaction admit relay_transaction
    try_add check_add lookup insert transaction_exists bad_text trim_space valid_string broadcast
    offer_all offer select_random_peers add_block check_append commit_append last_block check_new
    set_ids clone_chain ◌+ℤ◌ save_unlocked encode_chain encode_list encode_block validate_block
    create_genesis_block check_difficulty check_transactions validate_transaction calculate_hash
    encode_header encode_transaction encode_int encode_nat encode_string encode_slice sum256
    encode_to_string ◌==ₛ◌ has has_prefix
receive_succeeds = refl

pub receive_again_fails : (handle_incoming_block at_noon mined confirmed).0 ≡ err stale_block
unfolding handle_incoming_block append_block relay_block submit_transaction admit relay_transaction
    try_add check_add lookup insert transaction_exists broadcast offer_all offer select_random_peers
    add_block check_append commit_append last_block check_new set_ids clone_chain ◌+ℤ◌ save_unlocked
    encode_chain encode_list encode_block validate_block create_genesis_block check_difficulty
    check_transactions validate_transaction bad_text trim_space valid_string calculate_hash
    encode_header encode_transaction encode_int encode_nat encode_string encode_slice sum256
    encode_to_string ◌==ₛ◌ has has_prefix
receive_again_fails = refl

pub adopt_succeeds : (adopt at_noon (genesis ∷ mined ∷ []) submitted).0 ≡ ok tt
unfolding adopt check_adopt commit_adopt get_chain better_chain prepare_reorg keep_blocks
    confirm_blocks submit_transaction admit relay_transaction try_add check_add lookup insert
    get_pending sort_by_id transaction_exists broadcast offer_all offer select_random_peers
    replace_chain check_replace commit_replace index_transactions index_from validate_chain
    validate_from mark_transactions deep_equal same_transaction validate_block create_genesis_block
    check_difficulty check_transactions validate_transaction bad_text trim_space valid_string
    calculate_hash encode_header encode_transaction encode_int encode_nat encode_string encode_slice
    sum256 encode_to_string ◌==ₛ◌ has has_prefix set_ids save_unlocked encode_chain encode_list
    encode_block clone_chain
adopt_succeeds = refl

pub adopt_fails : (adopt at_noon (genesis ∷ []) fresh_engine).0 ≡ err not_better
unfolding adopt check_adopt get_chain clone_chain better_chain tip_hash ltb_ₛ create_genesis_block
    calculate_hash encode_header encode_int encode_nat encode_string encode_slice sum256
    encode_to_string
adopt_fails = refl
