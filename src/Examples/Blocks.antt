-- ===== src/Examples/Blocks.antt =====
-- The test helper `Block`, at the small network.
use distributed_p2p_ledger.Base.{
  ◌≡◌, refl, [], ◌∷◌, codes, has_prefix, max_ℤ, ◌+ℤ◌, pos, slice, some, ok,
}
use distributed_p2p_ledger.Sha.{sum256, encode_to_string}
use distributed_p2p_ledger.Json.{encode_int, encode_nat, encode_string, encode_slice}
use distributed_p2p_ledger.Models.Transaction.{encode_transaction}
use distributed_p2p_ledger.Models.Block.{
  Block, create_genesis_block, encode_header, calculate_hash, check_difficulty,
}
use distributed_p2p_ledger.Miner.{solve, candidate}
use distributed_p2p_ledger.TestUtil.{find_nonce, message, block}
use distributed_p2p_ledger.TestUtil.Solved.{undisturbed, block-solve}
use distributed_p2p_ledger.Examples.{noon, genesis}

abbrev tea_block : Block
tea_block = record {
  version = pos 1;
  difficulty = pos 1;
  index = pos 1;
  timestamp = pos noon;
  transactions = slice (message (codes "tea") ∷ []);
  prev_hash = codes "fbedbbfd6bddbdfe249e9ac0fe10888950b28bb6e63f2b80a45c803708355977";
  hash = codes "05aa6b2e28f4dbc64d8a4b1364c7c5bc77ced469ab21ff087ddcb881c3c1caa7";
  nonce = 2;
}

tea_block_found : block noon genesis (codes "tea" ∷ []) ≡ some tea_block
unfolding block find_nonce max_ℤ ◌+ℤ◌ create_genesis_block calculate_hash encode_header
    encode_transaction encode_int encode_nat encode_string encode_slice sum256 encode_to_string
    has_prefix
tea_block_found = refl

genesis_difficulty : check_difficulty genesis.difficulty ≡ ok tt
unfolding check_difficulty create_genesis_block
genesis_difficulty = refl

block-solve_example :
    solve undisturbed (candidate noon genesis.difficulty genesis (message (codes "tea") ∷ []))
    ≡ some (ok tt, tea_block)
block-solve_example =
    (block-solve noon genesis (codes "tea" ∷ []) tea_block genesis_difficulty).0 tea_block_found
