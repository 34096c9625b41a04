-- ===== src/Miner.antt =====
-- internal/miner/miner.go: the search for a nonce, and one round of the miner.
pub mod Search
pub mod Candidate
pub mod Round
use distributed_p2p_ledger.Base.{
  ℕ, zero, suc, ◌+◌, ◌-◌, ◌%◌, ◌^◌, Bool, true, false, List, [], ◌∷◌, Bytes, length, ◌==◌,
  has_prefix, ℤ, pos, pos_part, ◌+ℤ◌, max_ℤ, Slice, slice, Option, none, some, Error, Result, ok,
  err, tip_changed, nonce_space_exhausted, canceled,
}
use distributed_p2p_ledger.Text.{repeat_byte}
use distributed_p2p_ledger.Models.Transaction.{Transaction}
use distributed_p2p_ledger.Models.Block.{Block, check_difficulty, calculate_hash, protocol_version}
use distributed_p2p_ledger.Gossip.{Engine, Env, mining_work, handle_incoming_block}

-- What the `select` of one turn finds: nothing, the context done, or the channel `changed` closed.
pub data Signal : Type 0 where
  quiet : Signal
  context_done : Signal
  chain_changed : Signal

abbrev pub max_nonce : ℕ
max_nonce = 2 ^ 64 - 1

-- strings.HasPrefix(hash, target), with the target of the block's difficulty.
abbrev pub meets_target : Block → Bytes → Bool
meets_target b hash = has_prefix hash (repeat_byte b'0' (pos_part b.difficulty))

-- The loop from turn `turn` on; the block is what the pointer `b` refers to. It ends without a result
-- only if it runs out of fuel.
unfoldable pub solve_from : ℕ → (ℕ → Signal) → ℕ → Block → Option (Result (Unit {0}) × Block)
solve_from zero signals turn b = none
solve_from (suc fuel) signals turn b = elim (signals turn) [
  | context_done ↦ some (err canceled, b)
  | chain_changed ↦ some (err tip_changed, b)
  | quiet ↦
      let hashed = record b { hash = calculate_hash b } in
      elim (meets_target b hashed.hash) [
        | true ↦ some (ok tt, hashed)
        | false ↦ elim (b.nonce == max_nonce) [
          | true ↦ some (err nonce_space_exhausted, hashed)
          | false ↦
              solve_from fuel signals (suc turn) (record hashed { nonce = (b.nonce + 1) % 2 ^ 64 })
        ]
      ]
]

-- A turn for every nonce that is left.
unfoldable pub solve : (ℕ → Signal) → Block → Option (Result (Unit {0}) × Block)
solve signals b = elim (check_difficulty b.difficulty) [
  | err e ↦ some (err e, b)
  | ok _ ↦ solve_from (2 ^ 64 - b.nonce) signals 0 b
]

-- The block that `MineOnce` makes of a tip and pending transactions.
abbrev pub candidate : ℕ → ℤ → Block → List Transaction → Block
candidate now difficulty tip pending = record {
  version = protocol_version;
  difficulty = difficulty;
  index = tip.index +ℤ pos 1;
  timestamp = max_ℤ (pos now) tip.timestamp;
  transactions = slice pending;
  prev_hash = tip.hash;
  hash = [];
  nonce = 0;
}

-- The end of `MineOnce`: a solved block goes to the engine.
unfoldable pub hand_over :
    Env → Engine → Option (Result (Unit {0}) × Block) → Option (Result (Unit {0}) × Engine)
hand_over env g none = none
hand_over env g (some (err e, b)) = some (err e, g)
hand_over env g (some (ok _, b)) = some (handle_incoming_block env b g)

-- `MineOnce` at the time `now`. Other calls may run while it solves: it reads its work from the engine
-- `g`, and the engine is `later` when it is done.
unfoldable pub mine_once :
    ℕ → ℤ → (ℕ → Signal) → Env → Engine → Engine → Option (Result (Unit {0}) × Engine)
unfolding hand_over
mine_once now difficulty signals env g later = elim (mining_work g) [
  | err e ↦ some (err e, later)
  | ok (tip, pending, generation) ↦ elim (length pending == 0) [
    | true ↦ some (ok tt, later)
    | false ↦ hand_over env later (solve signals (candidate now difficulty tip pending))
  ]
]
