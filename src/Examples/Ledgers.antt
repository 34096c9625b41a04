-- ===== src/Examples/Ledgers.antt =====
-- The theorems on transactions, blocks, chains and the pool, at the small network.
use mathlib.Core.List.Perm
use distributed_p2p_ledger.Base.{
  ◌≡◌, ◌↔◌, refl, false, List, [], ◌∷◌, Bytes, has, lookup, insert, ◌==ₛ◌, ltb_ₛ, pos, ok, values,
}
use distributed_p2p_ledger.Models.Transaction.{
  validate_transaction, IsValidTransaction, validate_transaction_iff,
}
use distributed_p2p_ledger.Models.Block.{Block, validate_block}
use distributed_p2p_ledger.Models.Block.Validity.{IsValidBlock, validate_block_iff}
use distributed_p2p_ledger.Models.Chain.{validate_chain, tip_hash, better_chain}
use distributed_p2p_ledger.Models.Chain.Validity.{IsLedger, validate_chain_iff}
use distributed_p2p_ledger.Mempool.{try_add, get_pending}
use distributed_p2p_ledger.Mempool.Pending.{get_pending_unique}
use distributed_p2p_ledger.Mempool.Reorg.{Prepared, prepare_reorg_lem}
use distributed_p2p_ledger.Examples.{noon, genesis, payment, mined}
use distributed_p2p_ledger.Examples.Runs.{submitted, submitted-IsValidEngine, chain_is_valid}
use distributed_p2p_ledger.Text.{trim_space, valid_string}
use distributed_p2p_ledger.Sha.{sum256, encode_to_string}
use distributed_p2p_ledger.Json.{encode_int, encode_nat, encode_string, encode_slice}
use distributed_p2p_ledger.Models.Transaction.{bad_text}
use distributed_p2p_ledger.Models.Block.{create_genesis_block, encode_header, calculate_hash}
use distributed_p2p_ledger.Mempool.{check_add}
use distributed_p2p_ledger.Storage.{transaction_exists}
use distributed_p2p_ledger.Gossip.{
  submit_transaction, admit, relay_transaction, broadcast, offer_all, offer, select_random_peers,
}
use distributed_p2p_ledger.Storage.Invariant.{ledger-transactions}

validate_transaction_iff_example :
    (validate_transaction payment ≡ ok tt) ↔ IsValidTransaction payment
validate_transaction_iff_example = validate_transaction_iff payment

validate_block_iff_example :
    (validate_block noon mined (pos 1) ≡ ok tt) ↔ IsValidBlock noon mined (pos 1)
validate_block_iff_example = validate_block_iff noon mined (pos 1)

validate_chain_iff_example :
    (validate_chain noon (genesis ∷ mined ∷ []) (pos 1) ≡ ok tt)
    ↔ IsLedger noon (pos 1) genesis (mined ∷ [])
validate_chain_iff_example = validate_chain_iff noon (pos 1) genesis (mined ∷ [])

-- Two chains of length 1 with the same tip hash.
abbrev other_genesis : Block
other_genesis = record genesis { nonce = 5 }

no_better : better_chain (genesis ∷ []) (other_genesis ∷ []) ≡ false
unfolding better_chain tip_hash ltb_ₛ create_genesis_block calculate_hash encode_header encode_int
    encode_nat encode_string encode_slice sum256 encode_to_string
no_better = refl

values_of_one : values submitted.mempool.transactions ≡ payment ∷ []
unfolding submit_transaction admit relay_transaction broadcast offer_all offer select_random_peers
    transaction_exists try_add check_add lookup insert validate_transaction bad_text trim_space
    valid_string ◌==ₛ◌ has
values_of_one = refl

get_pending_unique_example : payment ∷ [] ≡ get_pending submitted.mempool
get_pending_unique_example =
    get_pending_unique submitted.mempool (payment ∷ []) submitted-IsValidEngine.pool
      (rw values_of_one (Perm.refl (payment ∷ []))) (tt, tt)

prepare_reorg_lem_example :
    (next : List Bytes) × Prepared (genesis ∷ mined ∷ []) (genesis ∷ []) submitted.mempool next
prepare_reorg_lem_example =
    prepare_reorg_lem (genesis ∷ mined ∷ []) (genesis ∷ []) submitted.mempool
      submitted-IsValidEngine.pool
      (ledger-transactions noon (pos 1) (genesis ∷ mined ∷ [])
        ((validate_chain_iff noon (pos 1) genesis (mined ∷ [])).0 chain_is_valid))
