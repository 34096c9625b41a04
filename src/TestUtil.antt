-- ===== src/TestUtil.antt =====
-- internal/testutil/blocks.go: the blocks that the regression tests append. The clock is the argument
-- `now`, in Unix seconds.
pub mod Solved
use distributed_p2p_ledger.Base.{
  [], ℕ, zero, suc, ◌+◌, ◌%◌, ◌^◌, ◌-◌, ◌≤◌, ◌<◌, ◌≡◌, ◌↔◌, refl, sym, ◌∙◌, inl, inr, Bool-cases,
  true, false, List, Bytes, ◌++◌, codes, ◌==◌, has_prefix, ℤ, pos, pos_part, ltb_ℤ, ◌+ℤ◌, max_ℤ,
  slice, map, Option, none, some, ok, err, arith, Result,
}
use distributed_p2p_ledger.Text.{repeat_byte}
use distributed_p2p_ledger.Models.Transaction.{Transaction}
use distributed_p2p_ledger.Models.Block.{Block, calculate_hash, check_difficulty, protocol_version}
use distributed_p2p_ledger.Miner.{
  Signal, quiet, candidate, meets_target, max_nonce, solve_from, solve,
}

-- The loop of `Block`. It has no test for the last nonce: it goes on with 0. It ends without a result if
-- it runs out of fuel, and where strings.Repeat panics, on a negative difficulty.
unfoldable pub find_nonce : ℕ → Block → Option Block
find_nonce zero b = none
find_nonce (suc fuel) b =
    let hashed = record b { hash = calculate_hash b } in
    elim (ltb_ℤ b.difficulty (pos 0)) [
      | true ↦ none
      | false ↦ elim (has_prefix hashed.hash (repeat_byte b'0' (pos_part b.difficulty))) [
        | true ↦ some hashed
        | false ↦ find_nonce fuel (record hashed { nonce = (b.nonce + 1) % 2 ^ 64 })
      ]
    ]

-- The transaction of the ID `id`.
abbrev pub message : Bytes → Transaction
message id = record { id = id; data_text = codes "message " ++ id; timestamp = pos 1 }

abbrev pub unsolved : ℕ → Block → List Bytes → Block
unsolved now prev ids = record {
  version = protocol_version;
  difficulty = prev.difficulty;
  index = prev.index +ℤ pos 1;
  timestamp = max_ℤ (pos now) prev.timestamp;
  transactions = slice (map message ids);
  prev_hash = prev.hash;
  hash = [];
  nonce = 0;
}

-- A turn for every nonce: a loop that has tried them all does not end.
unfoldable pub block : ℕ → Block → List Bytes → Option Block
block now prev ids = find_nonce (2 ^ 64) (unsolved now prev ids)
