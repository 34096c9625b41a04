-- ===== src/Models/Block.antt =====
-- internal/models/block.go: blocks, their hash and their validation. The clock is the argument `now`,
-- in Unix seconds.
pub mod Hash
pub mod Validity
use distributed_p2p_ledger.Base.{
  ℕ, ◌+◌, Bool, true, false, not, ◌&&◌, ◌||◌, List, [], ◌∷◌, ◌++◌, Bytes, codes, length, ltb, ◌==◌,
  ◌==ₛ◌, has, has_prefix, if◌then◌else◌, ℤ, pos, pos_part, ltb_ℤ, leb_ℤ, ◌==ℤ◌, Slice, slice,
  elements, len_slice, map, Error, Result, ok, err, ◌>>=◌, ◌>>◌, reject, invalid_difficulty,
  incompatible_block, invalid_block_index, invalid_block_timestamp, invalid_block_size,
  duplicate_in_block, invalid_block_hash, no_proof_of_work,
}
use distributed_p2p_ledger.Text.{repeat_byte}
use distributed_p2p_ledger.Json.{encode_string, encode_int, encode_nat, encode_slice}
use distributed_p2p_ledger.Sha.{sum256, encode_to_string}
use distributed_p2p_ledger.Models.Transaction.{
  Transaction, tx_ids, encode_transaction, validate_transaction,
}

abbrev pub protocol_version : ℤ
protocol_version = pos 1

abbrev pub default_difficulty : ℤ
default_difficulty = pos 2

abbrev pub max_difficulty : ℤ
max_difficulty = pos 4

abbrev pub max_block_transactions : ℕ
max_block_transactions = 100

abbrev pub max_chain_blocks : ℕ
max_chain_blocks = 10000

pub record Block : Type 0 where
  pub version : ℤ
  pub difficulty : ℤ
  pub index : ℤ
  pub timestamp : ℤ
  pub transactions : Slice Transaction
  pub prev_hash : Bytes
  pub hash : Bytes
  pub nonce : ℕ

-- What json.Marshal writes for the header of `CalculateHash`.
unfoldable pub encode_header : Block → Bytes
encode_header b =
    codes "{\"version\":"
    ++ encode_int b.version
    ++ codes ",\"difficulty\":"
    ++ encode_int b.difficulty
    ++ codes ",\"index\":"
    ++ encode_int b.index
    ++ codes ",\"timestamp\":"
    ++ encode_int b.timestamp
    ++ codes ",\"transactions\":"
    ++ encode_slice encode_transaction b.transactions
    ++ codes ",\"prev_hash\":"
    ++ encode_string b.prev_hash
    ++ codes ",\"nonce\":"
    ++ encode_nat b.nonce
    ++ codes "}"

unfoldable pub calculate_hash : Block → Bytes
calculate_hash b = encode_to_string (sum256 (encode_header b))

unfoldable pub check_difficulty : ℤ → Result (Unit {0})
check_difficulty d = reject (ltb_ℤ d (pos 1) || ltb_ℤ max_difficulty d) invalid_difficulty

-- The optional last argument of several constructors: the first of `ds`, if there is one.
abbrev pub difficulty_of : List ℤ → ℤ
difficulty_of [] = default_difficulty
difficulty_of (d ∷ ds) = d

-- time.Date(2026, 1, 1, 0, 0, 0, 0, time.UTC).Unix()
abbrev pub genesis_timestamp : ℤ
genesis_timestamp = pos 1767225600

abbrev genesis_fields : ℤ → Block
genesis_fields d = record {
  version = protocol_version;
  difficulty = d;
  index = pos 0;
  timestamp = genesis_timestamp;
  transactions = slice [];
  prev_hash = [];
  hash = [];
  nonce = 0;
}

unfoldable pub create_genesis_block : List ℤ → Block
create_genesis_block ds =
    let b = genesis_fields (difficulty_of ds) in record b { hash = calculate_hash b }

-- The loop over the transactions of a block, with the IDs seen so far.
unfoldable pub check_transactions : List Bytes → List Transaction → Result (Unit {0})
check_transactions seen [] = ok tt
check_transactions seen (tx ∷ txs) = do
  validate_transaction tx
  reject (has seen tx.id) (duplicate_in_block tx.id)
  check_transactions (tx.id ∷ seen) txs

unfoldable pub validate_block : ℕ → Block → ℤ → Result (Unit {0})
validate_block now b d = do
  check_difficulty d
  reject (not (b.version ==ℤ protocol_version) || not (b.difficulty ==ℤ d)) incompatible_block
  reject
      (ltb_ℤ b.index (pos 1)
        || leb_ℤ (pos max_chain_blocks) b.index
        || not (length b.prev_hash == 64))
      invalid_block_index
  reject
      (ltb_ℤ b.timestamp (create_genesis_block (d ∷ [])).timestamp
        || ltb_ℤ (pos (now + 120)) b.timestamp)
      invalid_block_timestamp
  reject (len_slice b.transactions == 0 || ltb max_block_transactions (len_slice b.transactions))
      invalid_block_size
  check_transactions [] (elements b.transactions)
  reject (not (length b.hash == 64) || not (b.hash ==ₛ calculate_hash b)) invalid_block_hash
  reject (not (has_prefix b.hash (repeat_byte b'0' (pos_part d)))) no_proof_of_work

-- The IDs of a block's transactions, in order.
abbrev pub ids : Block → List Bytes
ids b = tx_ids (elements b.transactions)
