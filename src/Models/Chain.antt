-- ===== src/Models/Chain.antt =====
-- internal/models/block.go: chain validation and fork choice, and a chain's JSON.
pub mod Equal
pub mod Marks
pub mod Validity
pub mod Extend
pub mod Choice
use distributed_p2p_ledger.Base.{
  ℕ, ◌+◌, Bool, true, false, not, ◌&&◌, ◌||◌, List, [], ◌∷◌, ◌++◌, Bytes, codes, length, ltb, ◌==◌,
  ◌==ₛ◌, ltb_ₛ, has, if◌then◌else◌, ℤ, pos, ltb_ℤ, ◌==ℤ◌, Slice, nil_slice, slice, elements,
  last_or, Error, Result, ok, err, ◌>>=◌, ◌>>◌, reject, wrap, invalid_chain_length, invalid_genesis,
  in_block, not_following_parent, duplicate_in_chain,
}
use distributed_p2p_ledger.Json.{encode_string, encode_int, encode_nat, encode_slice, encode_list}
use distributed_p2p_ledger.Models.Transaction.{Transaction, encode_transaction, same_transaction}
use distributed_p2p_ledger.Models.Block.{
  Block, ids, check_difficulty, create_genesis_block, validate_block, max_chain_blocks,
}

same_transactions : List Transaction → List Transaction → Bool
same_transactions [] [] = true
same_transactions [] (y ∷ ys) = false
same_transactions (x ∷ xs) [] = false
same_transactions (x ∷ xs) (y ∷ ys) = same_transaction x y && same_transactions xs ys

same_slices : Slice Transaction → Slice Transaction → Bool
unfolding same_transactions
same_slices nil_slice nil_slice = true
same_slices (slice xs) (slice ys) = same_transactions xs ys
same_slices _ _ = false

-- reflect.DeepEqual on blocks: a nil slice of transactions is not an empty one.
unfoldable pub deep_equal : Block → Block → Bool
unfolding same_slices
deep_equal a b =
    (a.version ==ℤ b.version)
    && (a.difficulty ==ℤ b.difficulty)
    && (a.index ==ℤ b.index)
    && (a.timestamp ==ℤ b.timestamp)
    && same_slices a.transactions b.transactions
    && (a.prev_hash ==ₛ b.prev_hash)
    && (a.hash ==ₛ b.hash)
    && (a.nonce == b.nonce)

-- The inner loop of `ValidateChain`: the IDs seen, with those of one more block.
unfoldable pub mark_transactions : List Bytes → List Transaction → Result (List Bytes)
mark_transactions seen [] = ok seen
mark_transactions seen (tx ∷ txs) = do
  reject (has seen tx.id) (duplicate_in_chain tx.id)
  mark_transactions (tx.id ∷ seen) txs

-- The outer loop from block `i` on, whose predecessor is `prev`.
unfoldable pub validate_from : ℕ → ℤ → ℕ → List Bytes → Block → List Block → Result (Unit {0})
validate_from now d i seen prev [] = ok tt
validate_from now d i seen prev (b ∷ chain) = do
  wrap (in_block i) (validate_block now b d)
  reject
      (not (b.index ==ℤ pos i)
        || not (b.prev_hash ==ₛ prev.hash)
        || ltb_ℤ b.timestamp prev.timestamp)
      (not_following_parent i)
  seen' ← mark_transactions seen (elements b.transactions)
  validate_from now d (i + 1) seen' b chain

-- The two checks of the first block and of the length, and the loop from block 1 on.
validate_blocks : ℕ → List Block → ℤ → Result (Unit {0})
validate_blocks now [] d = err invalid_chain_length
validate_blocks now (first ∷ chain) d = do
  reject (ltb max_chain_blocks (length (first ∷ chain))) invalid_chain_length
  reject (not (deep_equal first (create_genesis_block (d ∷ [])))) invalid_genesis
  validate_from now d 1 [] first chain

unfoldable pub validate_chain : ℕ → List Block → ℤ → Result (Unit {0})
unfolding validate_blocks
validate_chain now chain d = do check_difficulty d; validate_blocks now chain d

-- The hash of the last block: chain[len(chain)-1].Hash where there is one.
unfoldable pub tip_hash : List Block → Bytes
tip_hash [] = []
tip_hash (b ∷ chain) = (last_or b chain).hash

unfoldable pub better_chain : List Block → List Block → Bool
unfolding tip_hash
better_chain candidate current =
    if not (length candidate == length current)
    then ltb (length current) (length candidate)
    else ltb 0 (length candidate) && ltb_ₛ (tip_hash candidate) (tip_hash current)

-- What json.Marshal writes for a block, and for a chain.
unfoldable pub encode_block : Block → Bytes
encode_block b =
    codes "{\"version\":"
    ++ encode_int b.version
    ++ codes ",\"difficulty\":"
    ++ encode_int b.difficulty
    ++ codes ",\"index\":"
    ++ encode_int b.index
    ++ codes ",\"timestamp\":"
    ++ encode_int b.timestamp
    ++ codes ",\"transactions\":"
    ++ encode_slice encode_transaction b.transactions
    ++ codes ",\"prev_hash\":"
    ++ encode_string b.prev_hash
    ++ codes ",\"hash\":"
    ++ encode_string b.hash
    ++ codes ",\"nonce\":"
    ++ encode_nat b.nonce
    ++ codes "}"

unfoldable pub encode_chain : List Block → Bytes
encode_chain chain = encode_list encode_block chain

-- The IDs of the transactions of a chain, in order.
abbrev pub chain_ids : List Block → List Bytes
chain_ids [] = []
chain_ids (b ∷ chain) = ids b ++ chain_ids chain
