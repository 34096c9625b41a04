-- ===== src/Examples/Processes.antt =====
-- The theorems on a running node, at a few events.
use distributed_p2p_ledger.Base.{
  ◌*◌, ◌≤◌, ◌≡◌, ◌↔◌, refl, true, false, List, [], ◌∷◌, ◌++◌, Bytes, length, All, arith, some, ok,
  codes, has, lookup, insert, pos,
}
use distributed_p2p_ledger.Text.{trim_space, valid_string}
use distributed_p2p_ledger.Base.{◌==ₛ◌}
use distributed_p2p_ledger.Models.Transaction.{encode_transaction, validate_transaction, bad_text}
use distributed_p2p_ledger.Gossip.Http.{
  Response, get, read_limited, decode_response, max_response_bytes, get-ok_iff,
}
use distributed_p2p_ledger.Miner.{quiet}
use distributed_p2p_ledger.Api.{max_request_bytes}
use distributed_p2p_ledger.Api.Router.{post_transaction}
use distributed_p2p_ledger.Api.Sizes.{validate_transaction-fits}
use distributed_p2p_ledger.Node.Process.{
  Event, Process, request, sync_tick, chain_comes, pool_comes, pool_submits, mine_tick, mine_ends,
  job_taken, waiting, idle, process_run, process_step, on_jobs,
}
use distributed_p2p_ledger.Node.Process.Safe.{clock}
use distributed_p2p_ledger.Node.Process.Schedule.{Responses, peer_events}
use distributed_p2p_ledger.Node.Process.Round.{is_other, mine_tick-Accepted}
use distributed_p2p_ledger.Node.Process.CatchUp.{sync_tick-catches_up}
use distributed_p2p_ledger.Models.Chain.{better_chain}
use distributed_p2p_ledger.Models.Chain.Validity.{validate_chain_iff}
use distributed_p2p_ledger.Gossip.{
  Engine, rotated_peers, submit_transaction, admit, relay_transaction, broadcast, offer_all, offer,
  select_random_peers,
}
use distributed_p2p_ledger.Storage.{transaction_exists}
use distributed_p2p_ledger.Mempool.{try_add, check_add}
use distributed_p2p_ledger.Json.{encode_int, encode_nat, encode_string}
use distributed_p2p_ledger.Gossip.Receive.{Accepted}
use distributed_p2p_ledger.Examples.Nodes.{
  all_quiet, submitted_work, submitted_difficulty, work_is_solved, all_succeed, short_chain,
  room_for_two,
}
use distributed_p2p_ledger.Examples.Agreements.{fresh_takes}
use distributed_p2p_ledger.Ledger.{Moves, Keeps}
use distributed_p2p_ledger.Ledger.Refines.{books, process_run-Moves, process_run-Keeps}
use distributed_p2p_ledger.Examples.{
  noon, at_noon, genesis, mined, payment, fresh_engine, json_request, codecs, chain_response,
}
use distributed_p2p_ledger.Examples.Runs.{
  fresh_engine-IsValidEngine, submitted, submitted-IsValidEngine, chain_is_valid,
}

abbrev node : Process
node = record { engine = fresh_engine; sync = waiting; mining = idle }

abbrev submission : Event
submission =
    request (record { route = post_transaction; now = noon; env = at_noon; request = json_request })

-- A client's transaction is mined while a sync takes a peer's chain and pool.
abbrev events : List Event
events =
    submission
    ∷ mine_tick noon
    ∷ sync_tick
    ∷ chain_comes at_noon (some chain_response)
    ∷ pool_comes (some chain_response)
    ∷ pool_submits at_noon
    ∷ mine_ends (λ turn. quiet) at_noon
    ∷ job_taken
    ∷ []

events_timely : All (λ (e : Event). clock e ≤ noon) events
unfolding clock
events_timely = (
  omega arith,
  (
    omega arith,
    (omega arith, (omega arith, (omega arith, (omega arith, (omega arith, (omega arith, tt)))))),
  ),
)

process_run-Moves_example :
    Moves (books fresh_engine) (books (process_run codecs (pos 1) events node).engine)
process_run-Moves_example =
    process_run-Moves noon codecs (pos 1) events node events_timely fresh_engine-IsValidEngine

process_run-Keeps_example :
    Keeps (books fresh_engine) (books (process_run codecs (pos 1) events node).engine)
process_run-Keeps_example =
    process_run-Keeps noon codecs (pos 1) events node events_timely fresh_engine-IsValidEngine

abbrev responses : Bytes → Responses
responses peer = record {
  expired = false;
  env = at_noon;
  chain = some chain_response;
  pool = some chain_response;
  perm = λ tx. 1 ∷ 0 ∷ [];
}

chain_answered :
    get codecs.chain max_response_bytes (some chain_response) ≡ ok (genesis ∷ mined ∷ [])
unfolding get read_limited decode_response
chain_answered = refl

sync_tick-catches_up_example :
    (t : Engine) × (process_run codecs
        (pos 1)
        (sync_tick ∷ peer_events codecs responses (rotated_peers fresh_engine))
        node
      ≡ record node { engine = t })
    × (better_chain (genesis ∷ mined ∷ []) t.chain_store.chain ≡ false)
    × (t.peers ≡ codes "http://b" ∷ codes "http://c" ∷ [])
    × (t.next_peer ≡ 1)
sync_tick-catches_up_example =
    sync_tick-catches_up noon codecs (pos 1) responses (λ peer. omega arith) node (codes "http://b")
      (genesis ∷ mined ∷ []) refl fresh_engine-IsValidEngine refl refl chain_answered
      ((validate_chain_iff noon (pos 1) genesis (mined ∷ [])).0 chain_is_valid) fresh_takes

-- A node with work for its miner.
abbrev busy : Process
busy = record { engine = submitted; sync = waiting; mining = idle }

job_other : All (λ (e : Event). is_other e ≡ true) (job_taken ∷ [])
unfolding is_other
job_other = (refl, tt)

job_timely : All (λ (e : Event). clock e ≤ noon) (job_taken ∷ [])
unfolding clock
job_timely = (omega arith, tt)

job_keeps_chain :
    (process_run codecs (pos 1) (job_taken ∷ []) busy).engine.chain_store.chain
    ≡ submitted.chain_store.chain
unfolding process_run process_step on_jobs submit_transaction admit relay_transaction try_add
    check_add lookup insert transaction_exists validate_transaction bad_text trim_space valid_string
    broadcast offer_all offer select_random_peers ◌==ₛ◌ has encode_transaction encode_int encode_nat
    encode_string
job_keeps_chain = refl

mine_tick-Accepted_example :
    (t : Engine) × (process_run codecs
        (pos 1)
        (mine_tick noon ∷ (job_taken ∷ []) ++ mine_ends all_quiet at_noon ∷ [])
        busy
      ≡ record (process_run codecs (pos 1) (job_taken ∷ []) busy) { engine = t })
    × Accepted mined (process_run codecs (pos 1) (job_taken ∷ []) busy).engine t
mine_tick-Accepted_example =
    mine_tick-Accepted codecs (pos 1) noon all_quiet at_noon (job_taken ∷ []) busy refl job_other
      job_timely submitted-IsValidEngine submitted_difficulty job_keeps_chain (omega arith)
      (omega arith) short_chain genesis (payment ∷ []) 0 mined submitted_work (omega arith)
      work_is_solved all_succeed room_for_two

get-ok_iff_example :
    (get codecs.chain max_response_bytes (some chain_response) ≡ ok (genesis ∷ mined ∷ [])) ↔ (
      (r : Response) × (some chain_response ≡ some r)
      × (r.status ≡ 200)
      × (r.broken ≡ false)
      × (length r.body ≤ max_response_bytes)
      × (codecs.chain.first r.body ≡ some (genesis ∷ mined ∷ []))
      × (codecs.chain.at_end r.body ≡ true))
get-ok_iff_example =
    get-ok_iff codecs.chain max_response_bytes (some chain_response) (genesis ∷ mined ∷ [])

payment_valid : validate_transaction payment ≡ ok tt
unfolding validate_transaction bad_text trim_space valid_string ◌==ₛ◌
payment_valid = refl

validate_transaction-fits_example : 41 * length (encode_transaction payment) ≤ max_request_bytes
validate_transaction-fits_example = validate_transaction-fits payment payment_valid (omega arith)
