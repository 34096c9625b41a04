-- ===== src/Examples/Engines.antt =====
-- The theorems on the engine, at the small network.
use distributed_p2p_ledger.Base.{
  ℕ, suc, ◌≤◌, ◌≡◌, refl, arith, ◌==◌, if◌then◌else◌, true, false, ◌||◌, [], ◌∷◌, Bytes, codes,
  length, leb, ◌==ₛ◌, get_elem?, some, ok, err, ◌>>◌, reject, duplicate, full, not_better,
  stale_block, bad_status,
}
use distributed_p2p_ledger.Models.Transaction.{validate_transaction, IsValidTransaction}
use distributed_p2p_ledger.Models.Block.{Block}
use distributed_p2p_ledger.Models.Chain.{better_chain}
use distributed_p2p_ledger.Mempool.{max_pending}
use distributed_p2p_ledger.Storage.{clone_chain}
use distributed_p2p_ledger.Storage.Invariant.{IsLedgerChain}
use distributed_p2p_ledger.Storage.Extends.{Extends}
use distributed_p2p_ledger.Storage.Append.{SameLedger}
use distributed_p2p_ledger.Gossip.{
  Answer, submit_transaction, handle_incoming_block, adopt, rotated_peers,
}
use distributed_p2p_ledger.Gossip.Invariant.{knows}
use distributed_p2p_ledger.Gossip.Submit.{submit_transaction-result, submit_transaction-ok}
use distributed_p2p_ledger.Gossip.Receive.{Accepted, handle_incoming_block-ok}
use distributed_p2p_ledger.Gossip.Receive.Keeps.{handle_incoming_block_failed}
use distributed_p2p_ledger.Gossip.Adopt.{Adopted, adopt-ok}
use distributed_p2p_ledger.Gossip.Adopt.Keeps.{adopt_failed}
use distributed_p2p_ledger.Gossip.Sync.{Advances}
use distributed_p2p_ledger.Gossip.Rotation.{syncs, syncs-first_peer}
use distributed_p2p_ledger.Gossip.Trace.{Step, Run, Run-Advances}
use distributed_p2p_ledger.Gossip.{request_sync}
use distributed_p2p_ledger.Gossip.Repeat.{handle_incoming_block-again}
use distributed_p2p_ledger.Gossip.Worker.{Attempt, response, finished, send_job, send_job_lem}
use distributed_p2p_ledger.Examples.{noon, genesis, payment, mined, at_noon, fresh_engine}
use distributed_p2p_ledger.Examples.Runs.{
  fresh_engine-IsValidEngine, submitted, submitted-IsValidEngine, confirmed, submit_succeeds,
  receive_succeeds, receive_again_fails, adopt_succeeds, adopt_fails,
}

submit_transaction-result_example : (submit_transaction at_noon payment fresh_engine).0 ≡ (do
  validate_transaction payment
  reject (knows fresh_engine payment.id) duplicate
  reject (leb max_pending (length fresh_engine.mempool.transactions)) full)
submit_transaction-result_example = submit_transaction-result at_noon payment fresh_engine

submit_transaction-ok_example :
    IsValidTransaction payment
    × (knows fresh_engine payment.id ≡ false)
    × ((k : Bytes) → knows submitted k ≡ ((payment.id ==ₛ k) || knows fresh_engine k))
    × (submitted.chain_store ≡ fresh_engine.chain_store)
submit_transaction-ok_example = submit_transaction-ok at_noon payment fresh_engine submit_succeeds

handle_incoming_block-ok_example :
    (prev : Block) × Extends noon mined prev submitted.chain_store
    × Accepted mined submitted confirmed
handle_incoming_block-ok_example =
    handle_incoming_block-ok at_noon mined submitted submitted-IsValidEngine receive_succeeds

-- The same block a second time.
handle_incoming_block_failed_example :
    SameLedger confirmed.chain_store (handle_incoming_block at_noon mined confirmed).1.chain_store
    × ((handle_incoming_block at_noon mined confirmed).1.mempool ≡ confirmed.mempool)
    × ((handle_incoming_block at_noon mined confirmed).1.generation ≡ confirmed.generation)
handle_incoming_block_failed_example =
    handle_incoming_block_failed at_noon mined confirmed stale_block receive_again_fails

handle_incoming_block-again_example :
    handle_incoming_block at_noon mined confirmed ≡ (err stale_block, request_sync confirmed)
handle_incoming_block-again_example =
    handle_incoming_block-again at_noon at_noon mined submitted (omega arith)
      submitted-IsValidEngine receive_succeeds

adopt-ok_example :
    (better_chain (genesis ∷ mined ∷ []) submitted.chain_store.chain ≡ true)
    × IsLedgerChain noon submitted.chain_store.difficulty (clone_chain (genesis ∷ mined ∷ []))
    × Adopted (genesis ∷ mined ∷ []) submitted (adopt at_noon (genesis ∷ mined ∷ []) submitted).1
adopt-ok_example =
    adopt-ok at_noon (genesis ∷ mined ∷ []) submitted submitted-IsValidEngine adopt_succeeds

adopt_failed_example :
    SameLedger fresh_engine.chain_store (adopt at_noon (genesis ∷ []) fresh_engine).1.chain_store
    × ((adopt at_noon (genesis ∷ []) fresh_engine).1.mempool ≡ fresh_engine.mempool)
    × ((adopt at_noon (genesis ∷ []) fresh_engine).1.generation ≡ fresh_engine.generation)
adopt_failed_example =
    adopt_failed at_noon (genesis ∷ []) fresh_engine fresh_engine-IsValidEngine not_better
      adopt_fails

-- A peer that has mined a block, and whose pool cannot be read.
abbrev answers : Bytes → Answer
answers peer = record {
  expired = false;
  env = at_noon;
  chain = ok (genesis ∷ mined ∷ []);
  pending = err bad_status;
}

syncs-first_peer_example :
    get_elem? (rotated_peers (syncs (answers ∷ []) fresh_engine)) 0 ≡ some (codes "http://c")
syncs-first_peer_example =
    syncs-first_peer noon (answers ∷ []) fresh_engine ((λ peer. omega arith), tt)
      fresh_engine-IsValidEngine (omega arith)

Run-Advances_example : Advances noon fresh_engine confirmed
Run-Advances_example =
    Run-Advances noon
      (Run.next (Run.next Run.here (Step.submits at_noon payment))
        (Step.receives at_noon mined (omega arith)))
      fresh_engine-IsValidEngine

-- A peer that is busy at first.
abbrev busy_peer : ℕ → Attempt
busy_peer attempt = if attempt == 0 then response 503 else response 200

send_job_lem_example :
    ((send_job busy_peer (λ attempt. false)).end ≡ finished)
    × ((send_job busy_peer (λ attempt. false)).waits ≡ 100 ∷ [])
    × (2 ≤ suc (send_job busy_peer (λ attempt. false)).sent)
    × ((send_job busy_peer (λ attempt. false)).sent ≤ 2)
send_job_lem_example = send_job_lem busy_peer (λ attempt. false) refl refl
