-- ===== src/Api.antt =====
-- internal/api/handler.go: the requests that change the ledger, and those that read it. The HTTP
-- library and the JSON decoder are arguments.
pub mod Posts
pub mod Queries
pub mod Router
pub mod Sizes
pub mod Relay
use distributed_p2p_ledger.Base.{
  ◌⊎◌, inl, inr, ℕ, ◌+◌, ◌-◌, ◌*◌, ◌^◌, Bool, true, false, not, List, [], ◌∷◌, ◌++◌, Bytes, codes,
  length, ltb, ◌==ₛ◌, if◌then◌else◌, ℤ, pos, negsuc, ◌+ℤ◌, of_pattern, to_pattern, ◌%◌, elements,
  Option, none, some, Error, duplicate, full, Result, ok, err, ◌>>=◌,
}
use distributed_p2p_ledger.Text.{valid_string}
use distributed_p2p_ledger.Json.{JsonDecoder}
use distributed_p2p_ledger.Models.Transaction.{Transaction, validate_transaction}
use distributed_p2p_ledger.Models.Block.{Block, protocol_version, validate_block}
use distributed_p2p_ledger.Mempool.{get_pending}
use distributed_p2p_ledger.Storage.{Store, get_chain}
use distributed_p2p_ledger.Gossip.{
  Engine, Env, submit_transaction, handle_incoming_block, is_stale_block, read_state, status,
}

-- 1 << 20
abbrev pub max_request_bytes : ℕ
max_request_bytes = 2 ^ 20

-- What a handler reads of a POST request: the media type of its Content-Type, if that parses; the
-- bytes of the body; and whether reading them broke off.
pub record Request : Type 0 where
  pub media : Option Bytes
  pub body : Bytes
  pub broken : Bool

-- Why a request is refused: its form, or an error of the ledger.
pub data Refusal : Type 0 where
  wrong_media_type : Refusal
  body_too_large : Refusal
  unreadable_body : Refusal
  invalid_utf8 : Refusal
  invalid_json : Refusal
  several_values : Refusal
  ledger_error : Error → Refusal
  not_accepted : Refusal
  chain_unavailable : Refusal
  not_found : Bytes → Refusal

-- The bodies of the answers.
pub data Payload : Type 0 where
  refused : Refusal → Payload
  already_known : Payload
  pending_id : Bytes → Payload
  block_accepted : Payload
  chain_is : List Block → Payload
  transactions_are : List Transaction → Payload
  confirmed_transaction : Transaction → ℤ → ℤ → Payload
  pending_transaction : Transaction → Payload
  mempool_is : ℕ → List Transaction → Payload
  status_is : ℤ → ℤ → ℤ → Bytes → ℕ → Payload
  healthy : Payload

pub record Reply : Type 0 where
  pub code : ℕ
  pub answer : Payload

abbrev reply : ℕ → Payload → Reply
reply code answer = record { code = code; answer = answer }

is_json : Option Bytes → Bool
is_json none = false
is_json (some media) = media ==ₛ codes "application/json"

decode_value : {A : Type 0} → JsonDecoder A → Bytes → (Reply ⊎ A)
decode_value json raw = elim (json.first raw) [
  | none ↦ inl (reply 400 (refused invalid_json))
  | some value ↦ if json.at_end raw then inr value else inl (reply 400 (refused several_values))
]

-- `decode`: the reply of a refusal, or the value.
unfoldable pub decode : {A : Type 0} → JsonDecoder A → Request → (Reply ⊎ A)
unfolding is_json decode_value
decode json req =
    if not (is_json req.media)
    then inl (reply 415 (refused wrong_media_type))
    else if ltb max_request_bytes (length req.body)
    then inl (reply 413 (refused body_too_large))
    else if req.broken
    then inl (reply 400 (refused unreadable_body))
    else if not (valid_string req.body)
    then inl (reply 400 (refused invalid_utf8))
    else decode_value json req.body

-- errors.Is(err, mempool.ErrDuplicate) and errors.Is(err, mempool.ErrFull)
unfoldable pub refuse_transaction : Bool → Error → Reply
refuse_transaction incoming duplicate =
    if incoming then reply 200 already_known else reply 409 (refused (ledger_error duplicate))
refuse_transaction incoming full = reply 429 (refused (ledger_error full))
refuse_transaction incoming e = reply 500 (refused not_accepted)

-- The reply to a submitted transaction.
unfoldable pub submit_reply : Bool → Transaction → Result (Unit {0}) → Reply
unfolding refuse_transaction
submit_reply incoming tx (err e) = refuse_transaction incoming e
submit_reply incoming tx (ok _) = reply (if incoming then 200 else 202) (pending_id tx.id)

-- `accept`, with `incoming` for a transaction that a peer sends.
unfoldable pub accept : JsonDecoder Transaction → Bool → Env → Request → Engine → Reply × Engine
accept json incoming env req g = elim (decode json req) [
  | inl refusal ↦ (refusal, g)
  | inr tx ↦ elim (validate_transaction tx) [
    | err e ↦ (reply 400 (refused (ledger_error e)), g)
    | ok _ ↦ let (r, g') = submit_transaction env tx g in (submit_reply incoming tx r, g')
  ]
]

unfoldable pub add_transaction : JsonDecoder Transaction → Env → Request → Engine → Reply × Engine
add_transaction json env req g = accept json false env req g

unfoldable pub gossip_receive : JsonDecoder Transaction → Env → Request → Engine → Reply × Engine
gossip_receive json env req g = accept json true env req g

unfoldable pub block_reply : Result (Unit {0}) → Reply
block_reply (err e) = reply (if is_stale_block e then 409 else 422) (refused (ledger_error e))
block_reply (ok _) = reply 202 block_accepted

-- `ReceiveBlock`, which validates the block itself, at the time `now`, and hands it to the engine.
unfoldable pub receive_block : JsonDecoder Block → ℕ → Env → Request → Engine → Reply × Engine
unfolding block_reply
receive_block json now env req g = elim (decode json req) [
  | inl refusal ↦ (refusal, g)
  | inr b ↦ elim (validate_block now b g.chain_store.difficulty) [
    | err e ↦ (reply 400 (refused (ledger_error e)), g)
    | ok _ ↦ let (r, g') = handle_incoming_block env b g in (block_reply r, g')
  ]
]

unfoldable pub find_transaction : Bytes → List Transaction → Option Transaction
find_transaction id [] = none
find_transaction id (tx ∷ txs) = if tx.id ==ₛ id then some tx else find_transaction id txs

-- The block that confirms a transaction, and the transaction.
unfoldable pub find_confirmed : Bytes → List Block → Option (Block × Transaction)
unfolding find_transaction
find_confirmed id [] = none
find_confirmed id (b ∷ chain) = elim (find_transaction id (elements b.transactions)) [
  | none ↦ find_confirmed id chain
  | some tx ↦ some (b, tx)
]

-- len(chain) - b.Index, on int64.
unfoldable pub confirmations : List Block → Block → ℤ
confirmations chain b = of_pattern ((length chain + (2 ^ 64 - to_pattern b.index)) % 2 ^ 64)

unfoldable pub find_pending : Bytes → List Transaction → Reply
find_pending id pending = elim (find_transaction id pending) [
  | none ↦ reply 404 (refused (not_found id))
  | some tx ↦ reply 200 (pending_transaction tx)
]

unfoldable pub get_transaction : Bytes → Engine → Reply
unfolding find_pending
get_transaction id g = elim (read_state g) [
  | err e ↦ reply 500 (refused chain_unavailable)
  | ok (chain, pending) ↦ elim (find_confirmed id chain) [
    | some (b, tx) ↦ reply 200 (confirmed_transaction tx b.index (confirmations chain b))
    | none ↦ find_pending id pending
  ]
]

unfoldable pub get_chain_reply : Engine → Reply
get_chain_reply g = elim (get_chain g.chain_store) [
  | err e ↦ reply 500 (refused chain_unavailable)
  | ok chain ↦ reply 200 (chain_is chain)
]

unfoldable pub chain_transactions : List Block → List Transaction
chain_transactions [] = []
chain_transactions (b ∷ chain) = elements b.transactions ++ chain_transactions chain

unfoldable pub get_transactions : Engine → Reply
unfolding chain_transactions
get_transactions g = elim (get_chain g.chain_store) [
  | err e ↦ reply 500 (refused chain_unavailable)
  | ok chain ↦ reply 200 (transactions_are (chain_transactions chain))
]

unfoldable pub get_mempool : Engine → Reply
get_mempool g = let txs = get_pending g.mempool in reply 200 (mempool_is (length txs) txs)

unfoldable pub get_status : Engine → Reply
get_status g = elim (status g) [
  | err e ↦ reply 503 (refused chain_unavailable)
  | ok (b, pending) ↦
      reply 200 (status_is protocol_version g.chain_store.difficulty b.index b.hash pending)
]

unfoldable pub get_healthz : Reply
get_healthz = reply 200 healthy
