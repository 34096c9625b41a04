-- ===== src/Examples/Facts.antt =====
-- What the small network computes.
use distributed_p2p_ledger.Base.{◌≡◌, refl, has, has_prefix, ◌==ₛ◌, pos, ok}
use distributed_p2p_ledger.Text.{trim_space, valid_string}
use distributed_p2p_ledger.Sha.{sum256, encode_to_string}
use distributed_p2p_ledger.Json.{encode_int, encode_nat, encode_string, encode_slice}
use distributed_p2p_ledger.Models.Transaction.{bad_text, validate_transaction, encode_transaction}
use distributed_p2p_ledger.Models.Block.{
  create_genesis_block, encode_header, calculate_hash, check_difficulty, check_transactions,
  validate_block,
}
use distributed_p2p_ledger.Examples.{noon, genesis, payment, mined}

pub genesis_hash : genesis.hash ≡ mined.prev_hash
unfolding create_genesis_block calculate_hash encode_header encode_int encode_nat encode_string
    encode_slice sum256 encode_to_string
genesis_hash = refl

pub payment_is_valid : validate_transaction payment ≡ ok tt
unfolding validate_transaction bad_text trim_space valid_string ◌==ₛ◌
payment_is_valid = refl

pub mined_is_valid : validate_block noon mined (pos 1) ≡ ok tt
unfolding validate_block create_genesis_block check_difficulty check_transactions
    validate_transaction bad_text trim_space valid_string calculate_hash encode_header
    encode_transaction encode_int encode_nat encode_string encode_slice sum256 encode_to_string
    ◌==ₛ◌ has has_prefix
mined_is_valid = refl
