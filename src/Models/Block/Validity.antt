-- ===== src/Models/Block/Validity.antt =====
-- What `validate_block` accepts.
use distributed_p2p_ledger.Base.{
  ℕ, ◌+◌, ◌≤◌, ◌≡◌, ◌↔◌, refl, true, List, [], ◌∷◌, Bytes, length, All, Distinct, Apart,
  Apart-cons_right, Apart-nil_right, has-cons, has_prefix, ==ₛ_iff, arith, ℤ, pos, pos_part, ◌≤ℤ◌,
  ◌<ℤ◌, ==ℤ_iff, elements, len_slice, ok,
}
use distributed_p2p_ledger.Text.{repeat_byte}
use distributed_p2p_ledger.Models.Transaction.{
  Transaction, tx_ids, IsValidTransaction, validate_transaction_iff,
}
use distributed_p2p_ledger.Models.Block.{
  Block, ids, calculate_hash, check_difficulty, check_transactions, validate_block, max_difficulty,
  protocol_version, genesis_timestamp, max_chain_blocks, max_block_transactions,
  create_genesis_block,
}
use distributed_p2p_ledger.Models.Block.Hash.{length-calculate_hash}

abbrev pub IsDifficulty : ℤ → Type 0
IsDifficulty d = (pos 1 ≤ℤ d) × (d ≤ℤ max_difficulty)

pub check_difficulty_iff : (d : ℤ) → (check_difficulty d ≡ ok tt) ↔ IsDifficulty d
unfolding check_difficulty
check_difficulty_iff d = (λ h. ground arith, λ h. ground arith)

check_transactions_iff :
    (seen : List Bytes) (txs : List Transaction)
    → (check_transactions seen txs ≡ ok tt)
      ↔ (All IsValidTransaction txs × Distinct (tx_ids txs) × Apart (tx_ids txs) seen)
unfolding check_transactions
check_transactions_iff seen [] = (λ h. (tt, tt, tt), λ h. refl)
check_transactions_iff seen (tx ∷ txs) =
    let ih = check_transactions_iff (tx.id ∷ seen) txs in
    let valid = validate_transaction_iff tx in
    let apart = Apart-cons_right (tx_ids txs) tx.id seen in
    (
      λ h.
          let rest = ih.0 (ground (arith, has-cons tx.id seen tx.id)) in
          let fresh = apart.0 rest.2 in
          ((valid.0 (ground arith), rest.0), (fresh.0, rest.1), (ground arith, fresh.1)),
      λ h. ground (arith, valid.1 h.0.0, h.2.0, ih.1 (h.0.1, h.1.1, apart.1 (h.1.0, h.2.1))),
    )

-- A block that every node of difficulty `d` takes at the time `now`, apart from its place in a chain.
pub record IsValidBlock (now : ℕ) (b : Block) (d : ℤ) : Type 0 where
  pub difficulty_range : IsDifficulty d
  pub version : b.version ≡ protocol_version
  pub difficulty : b.difficulty ≡ d
  pub index_range : (pos 1 ≤ℤ b.index) × (b.index <ℤ pos max_chain_blocks)
  pub prev_hash_length : length b.prev_hash ≡ 64
  pub time_range : (genesis_timestamp ≤ℤ b.timestamp) × (b.timestamp ≤ℤ pos (now + 120))
  pub size_range :
      (1 ≤ len_slice b.transactions) × (len_slice b.transactions ≤ max_block_transactions)
  pub transactions : All IsValidTransaction (elements b.transactions)
  pub distinct_ids : Distinct (ids b)
  pub hash : b.hash ≡ calculate_hash b
  pub work : has_prefix b.hash (repeat_byte b'0' (pos_part d)) ≡ true

genesis_time : (d : ℤ) → (create_genesis_block (d ∷ [])).timestamp ≡ genesis_timestamp
unfolding create_genesis_block
genesis_time d = refl

length-hash : (b : Block) → b.hash ≡ calculate_hash b → length b.hash ≡ 64
length-hash b e = rw e (length-calculate_hash b)

module _ (now : ℕ) (b : Block) (d : ℤ) where
  validate_block-valid : validate_block now b d ≡ ok tt → IsValidBlock now b d
  unfolding validate_block
  validate_block-valid h =
      let txs = (check_transactions_iff [] (elements b.transactions)).0 (ground arith) in
      record {
        difficulty_range = (check_difficulty_iff d).0 (ground arith);
        version = (==ℤ_iff b.version protocol_version).0 (ground arith);
        difficulty = (==ℤ_iff b.difficulty d).0 (ground arith);
        index_range = ground arith;
        prev_hash_length = ground arith;
        time_range = ground (arith, genesis_time d);
        size_range = ground arith;
        transactions = txs.0;
        distinct_ids = txs.1;
        hash = (==ₛ_iff b.hash (calculate_hash b)).0 (ground arith);
        work = ground arith;
      }

  valid-validate_block : IsValidBlock now b d → validate_block now b d ≡ ok tt
  unfolding validate_block
  valid-validate_block v = ground (
    arith,
    (check_difficulty_iff d).1 v.difficulty_range,
    (==ℤ_iff b.version protocol_version).1 v.version,
    (==ℤ_iff b.difficulty d).1 v.difficulty,
    v.index_range,
    v.prev_hash_length,
    v.time_range,
    genesis_time d,
    v.size_range,
    (check_transactions_iff [] (elements b.transactions)).1
        (v.transactions, v.distinct_ids, Apart-nil_right (ids b)),
    length-hash b v.hash,
    (==ₛ_iff b.hash (calculate_hash b)).1 v.hash,
    v.work,
  )

-- `ValidateBlock` accepts exactly the valid blocks.
pub validate_block_iff :
    (now : ℕ) (b : Block) (d : ℤ) → (validate_block now b d ≡ ok tt) ↔ IsValidBlock now b d
validate_block_iff now b d = (validate_block-valid now b d, valid-validate_block now b d)

-- A block that was valid stays valid as the clock advances.
pub IsValidBlock-later :
    (now later : ℕ) (b : Block) (d : ℤ)
    → now ≤ later
    → IsValidBlock now b d
    → IsValidBlock later b d
IsValidBlock-later now later b d h v = record {
  difficulty_range = v.difficulty_range;
  version = v.version;
  difficulty = v.difficulty;
  index_range = v.index_range;
  prev_hash_length = v.prev_hash_length;
  time_range = (v.time_range.0, omega arith);
  size_range = v.size_range;
  transactions = v.transactions;
  distinct_ids = v.distinct_ids;
  hash = v.hash;
  work = v.work;
}
