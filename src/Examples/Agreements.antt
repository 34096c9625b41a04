-- ===== src/Examples/Agreements.antt =====
-- The theorems on several nodes, at a node that has mined a block and one that has not.
use distributed_p2p_ledger.Base.{
  ◌≤◌, ◌≡◌, refl, [], ◌∷◌, length, arith, ◌==ₛ◌, has, has_prefix, lookup, insert, delete, ◌+ℤ◌,
}
use distributed_p2p_ledger.Text.{trim_space, valid_string}
use distributed_p2p_ledger.Sha.{sum256, encode_to_string}
use distributed_p2p_ledger.Json.{encode_int, encode_nat, encode_string, encode_slice, encode_list}
use distributed_p2p_ledger.Models.Transaction.{bad_text, validate_transaction, encode_transaction}
use distributed_p2p_ledger.Models.Block.{
  create_genesis_block, encode_header, calculate_hash, check_difficulty, check_transactions,
  validate_block,
}
use distributed_p2p_ledger.Models.Chain.{encode_block, encode_chain}
use distributed_p2p_ledger.Mempool.{
  check_add, try_add, sort_by_id, get_pending, keep_blocks, keep_transactions, confirm_blocks,
  prepare_reorg, remove,
}
use distributed_p2p_ledger.Storage.{
  clone_chain, last_block, check_new, set_ids, check_append, commit_append, add_block,
  transaction_exists,
}
use distributed_p2p_ledger.Storage.ChainFile.{save_unlocked}
use distributed_p2p_ledger.Storage.Save.{AllSucceed}
use distributed_p2p_ledger.Gossip.{
  admit, relay_transaction, submit_transaction, append_block, relay_block, handle_incoming_block,
  broadcast, offer_all, offer, select_random_peers,
}
use distributed_p2p_ledger.Gossip.Agreement.{CanTake, Agree, after_sync, sync_chain-Agree}
use distributed_p2p_ledger.Examples.{genesis, mined, payment, all_well, at_noon, fresh_engine}
use distributed_p2p_ledger.Base.{sym, ap, inr}
use distributed_p2p_ledger.Api.{decode, receive_block}
use distributed_p2p_ledger.Api.Relay.{receive_block-Spreads}
use distributed_p2p_ledger.Gossip.Submit.{chain-submit_transaction}
use distributed_p2p_ledger.Examples.{always, json_request, noon}
use distributed_p2p_ledger.Examples.Runs.{
  submitted, submitted-IsValidEngine, receive_succeeds, confirmed, confirmed-IsValidEngine,
  fresh_engine-IsValidEngine,
}

chain_of_two : confirmed.chain_store.chain ≡ genesis ∷ mined ∷ []
unfolding handle_incoming_block append_block relay_block submit_transaction admit relay_transaction
    try_add check_add lookup insert transaction_exists bad_text trim_space valid_string broadcast
    offer_all offer select_random_peers add_block check_append commit_append last_block check_new
    set_ids clone_chain ◌+ℤ◌ save_unlocked encode_chain encode_list encode_block validate_block
    create_genesis_block check_difficulty check_transactions validate_transaction calculate_hash
    encode_header encode_transaction encode_int encode_nat encode_string encode_slice sum256
    encode_to_string ◌==ₛ◌ has has_prefix
chain_of_two = refl

well : AllSucceed all_well
well = record { create = refl; write = refl; sync = refl; close = refl; rename = refl }

two_fit : length (encode_chain (genesis ∷ mined ∷ [])) ≤ 1000
unfolding encode_chain encode_list encode_block encode_int encode_nat encode_string encode_slice
    encode_transaction create_genesis_block calculate_hash encode_header sum256 encode_to_string
two_fit = omega arith

one_fits : length (encode_chain (genesis ∷ [])) ≤ 1000
unfolding encode_chain encode_list encode_block encode_int encode_nat encode_string encode_slice
    encode_transaction create_genesis_block calculate_hash encode_header sum256 encode_to_string
one_fits = omega arith

pub fresh_takes : CanTake at_noon (genesis ∷ mined ∷ []) fresh_engine
unfolding prepare_reorg keep_blocks keep_transactions confirm_blocks get_pending sort_by_id
    create_genesis_block calculate_hash encode_header sum256 encode_to_string has ◌==ₛ◌ lookup
    insert
fresh_takes = record { io = well; fits = omega (arith, two_fit); pending = []; room = refl }

confirmed_takes : CanTake at_noon (genesis ∷ []) confirmed
unfolding prepare_reorg keep_blocks keep_transactions confirm_blocks get_pending sort_by_id
    handle_incoming_block append_block relay_block submit_transaction admit relay_transaction
    try_add check_add lookup insert transaction_exists bad_text trim_space valid_string broadcast
    offer_all offer select_random_peers add_block check_append commit_append last_block check_new
    set_ids clone_chain ◌+ℤ◌ save_unlocked encode_chain encode_list encode_block validate_block
    create_genesis_block check_difficulty check_transactions validate_transaction calculate_hash
    encode_header encode_transaction encode_int encode_nat encode_string encode_slice sum256
    encode_to_string ◌==ₛ◌ has has_prefix remove delete
confirmed_takes = record {
  io = well;
  fits = omega (arith, one_fits);
  pending = payment ∷ [];
  room = refl;
}

confirmed_difficulty : confirmed.chain_store.difficulty ≡ fresh_engine.chain_store.difficulty
unfolding handle_incoming_block append_block relay_block submit_transaction admit relay_transaction
    try_add check_add lookup insert transaction_exists bad_text trim_space valid_string broadcast
    offer_all offer select_random_peers add_block check_append commit_append last_block check_new
    set_ids clone_chain ◌+ℤ◌ save_unlocked encode_chain encode_list encode_block validate_block
    create_genesis_block check_difficulty check_transactions validate_transaction calculate_hash
    encode_header encode_transaction encode_int encode_nat encode_string encode_slice sum256
    encode_to_string ◌==ₛ◌ has has_prefix
confirmed_difficulty = refl

sync_chain-Agree_example :
    Agree
      (after_sync at_noon (after_sync at_noon confirmed fresh_engine) confirmed)
      (after_sync at_noon confirmed fresh_engine)
sync_chain-Agree_example =
    sync_chain-Agree at_noon at_noon confirmed fresh_engine confirmed-IsValidEngine
      fresh_engine-IsValidEngine confirmed_difficulty (omega arith) (rw chain_of_two fresh_takes)
      confirmed_takes

block_decoded : decode (always mined) json_request ≡ inr mined
unfolding decode valid_string ◌==ₛ◌
block_decoded = refl

same_store : fresh_engine.chain_store ≡ submitted.chain_store
same_store = sym (chain-submit_transaction at_noon payment fresh_engine)

receive_block-Spreads_example :
    ((receive_block (always mined) noon at_noon json_request fresh_engine).0.code ≡ 202)
    × ((receive_block (always mined) noon at_noon json_request fresh_engine).1.chain_store.chain
        ≡ (handle_incoming_block at_noon mined submitted).1.chain_store.chain)
receive_block-Spreads_example =
    receive_block-Spreads (always mined) noon at_noon at_noon json_request mined submitted
      fresh_engine submitted-IsValidEngine fresh_engine-IsValidEngine (ap (λ s. s.chain) same_store)
      (ap (λ s. s.difficulty) same_store) (omega arith) (omega arith) well receive_succeeds
      block_decoded
