-- ===== src/Examples/Nodes.antt =====
-- The theorems on the miner and the HTTP interface, at the small network.
use distributed_p2p_ledger.Base.{
  ℕ, ◌≤◌, ◌<◌, ◌≡◌, refl, ap, arith, true, [], ◌∷◌, ◌++◌, codes, length, leb, has, has_prefix,
  max_ℤ, ◌+ℤ◌, ◌==ₛ◌, pos, some, Result, ok, err, inr, lookup, insert, if◌then◌else◌,
}
use distributed_p2p_ledger.Text.{trim_space, valid_string}
use distributed_p2p_ledger.Sha.{sum256, encode_to_string}
use distributed_p2p_ledger.Json.{encode_int, encode_nat, encode_string, encode_slice, encode_list}
use distributed_p2p_ledger.Models.Transaction.{
  Transaction, bad_text, validate_transaction, encode_transaction,
}
use distributed_p2p_ledger.Models.Block.{
  Block, create_genesis_block, encode_header, calculate_hash, check_difficulty, max_chain_blocks,
}
use distributed_p2p_ledger.Models.Chain.{encode_block, encode_chain}
use distributed_p2p_ledger.Mempool.{check_add, try_add, sort_by_id, get_pending, max_pending}
use distributed_p2p_ledger.Storage.{last_block, get_latest_block, transaction_exists}
use distributed_p2p_ledger.Gossip.{
  Engine, admit, relay_transaction, submit_transaction, broadcast, offer_all, offer,
  select_random_peers, mining_work,
}
use distributed_p2p_ledger.Gossip.Invariant.{knows}
use distributed_p2p_ledger.Gossip.Receive.{Accepted}
use distributed_p2p_ledger.Storage.{Store}
use distributed_p2p_ledger.Storage.ChainFile.{max_chain_bytes}
use distributed_p2p_ledger.Storage.Save.{AllSucceed}
use distributed_p2p_ledger.Gossip.Submit.{
  submit_transaction-IsValidEngine, chain-submit_transaction,
}
use distributed_p2p_ledger.Miner.{Signal, quiet, solve_from, solve, candidate, mine_once}
use distributed_p2p_ledger.Miner.Search.{Solved, solve-returns, solve-Solved}
use distributed_p2p_ledger.Miner.Round.{mine_once-Accepted}
use distributed_p2p_ledger.Api.{decode, accept, get_transaction}
use distributed_p2p_ledger.Api.Posts.{accept-code}
use distributed_p2p_ledger.Api.Queries.{Found, get_transaction-Found}
use distributed_p2p_ledger.Examples.{always, json_request, noon, genesis, payment, mined, at_noon}
use distributed_p2p_ledger.Examples.Runs.{
  submitted, submitted-IsValidEngine, confirmed, confirmed-IsValidEngine,
}

abbrev pub all_quiet : ℕ → Signal
all_quiet turn = quiet

abbrev pub work : Block
work = candidate noon (pos 1) genesis (payment ∷ [])

pub work_is_solved : solve all_quiet work ≡ some (ok tt, mined)
unfolding solve solve_from check_difficulty max_ℤ ◌+ℤ◌ create_genesis_block calculate_hash
    encode_header encode_transaction encode_int encode_nat encode_string encode_slice sum256
    encode_to_string has_prefix
work_is_solved = refl

solve-Solved_example : Solved work mined
solve-Solved_example = solve-Solved all_quiet work (omega arith) mined work_is_solved

solve-returns_example : (r : Result (Unit {0}) × Block) × (solve all_quiet work ≡ some r)
solve-returns_example = solve-returns all_quiet work (omega arith)

pub submitted_work : mining_work submitted ≡ ok (genesis, payment ∷ [], 0)
unfolding mining_work get_latest_block last_block get_pending sort_by_id submit_transaction admit
    relay_transaction broadcast offer_all offer select_random_peers transaction_exists try_add
    check_add lookup insert validate_transaction bad_text trim_space valid_string ◌==ₛ◌ has
    create_genesis_block
submitted_work = refl

pub two_fit : length (encode_chain (submitted.chain_store.chain ++ mined ∷ [])) ≤ 1000
unfolding submit_transaction admit relay_transaction broadcast offer_all offer select_random_peers
    transaction_exists try_add check_add lookup insert validate_transaction bad_text trim_space
    valid_string ◌==ₛ◌ has create_genesis_block calculate_hash encode_header encode_transaction
    encode_int encode_nat encode_string encode_slice sum256 encode_to_string encode_chain
    encode_list encode_block
two_fit = omega arith

pub all_succeed : AllSucceed at_noon.io
all_succeed = record { create = refl; write = refl; sync = refl; close = refl; rename = refl }

abbrev second : Transaction
second = record { id = codes "b"; data_text = codes "pay 22"; timestamp = pos 1 }

-- The engine when the search ends: another transaction has come.
abbrev meanwhile : Engine
meanwhile = (submit_transaction at_noon second submitted).1

pub submitted_difficulty : pos 1 ≡ submitted.chain_store.difficulty
unfolding submit_transaction admit relay_transaction try_add check_add lookup insert
    transaction_exists validate_transaction bad_text trim_space valid_string broadcast offer_all
    offer select_random_peers ◌==ₛ◌ has
submitted_difficulty = refl

pub short_chain : length submitted.chain_store.chain < max_chain_blocks
unfolding submit_transaction admit relay_transaction try_add check_add lookup insert
    transaction_exists validate_transaction bad_text trim_space valid_string broadcast offer_all
    offer select_random_peers ◌==ₛ◌ has
short_chain = omega arith

pub room_for_two :
    length (encode_chain (submitted.chain_store.chain ++ mined ∷ [])) ≤ max_chain_bytes
room_for_two = omega (arith, two_fit)

mine_once-Accepted_example :
    (t : Engine) × (mine_once noon (pos 1) all_quiet at_noon submitted meanwhile ≡ some (ok tt, t))
    × Accepted mined meanwhile t
mine_once-Accepted_example =
    mine_once-Accepted noon (pos 1) all_quiet at_noon submitted meanwhile submitted-IsValidEngine
      (submit_transaction-IsValidEngine noon at_noon second submitted submitted-IsValidEngine)
      submitted_difficulty
      (ap (λ (c : Store). c.chain) (chain-submit_transaction at_noon second submitted))
      (omega arith) (omega arith) short_chain genesis (payment ∷ []) 0 mined submitted_work
      (omega arith) work_is_solved all_succeed room_for_two

payment_decoded : decode (always payment) json_request ≡ inr payment
unfolding decode valid_string ◌==ₛ◌
payment_decoded = refl

accept-code_example :
    (accept (always payment) true at_noon json_request submitted).0.code
    ≡ (elim (validate_transaction payment) [
      | err e ↦ 400
      | ok _ ↦
          if knows submitted payment.id
          then 200
          else if leb max_pending (length submitted.mempool.transactions)
          then 429
          else 200
    ])
accept-code_example =
    accept-code (always payment) true at_noon json_request submitted payment payment_decoded

get_transaction-Found_example : Found (codes "a") confirmed (get_transaction (codes "a") confirmed)
get_transaction-Found_example =
    get_transaction-Found noon (codes "a") confirmed confirmed-IsValidEngine
