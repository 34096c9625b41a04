-- ===== src/Api/Posts.antt =====
-- The replies to POST requests.
use distributed_p2p_ledger.Base.{
  ℕ, ◌≤◌, ◌<◌, ◌≡◌, refl, inl, inr, ◌⊎◌, Bool, length, leb, arith, Result-cases, ok, err,
  if◌then◌else◌,
}
use distributed_p2p_ledger.Json.{JsonDecoder}
use distributed_p2p_ledger.Models.Transaction.{Transaction, validate_transaction}
use distributed_p2p_ledger.Models.Block.{Block, validate_block}
use distributed_p2p_ledger.Mempool.{max_pending}
use distributed_p2p_ledger.Gossip.{
  Engine, Env, submit_transaction, handle_incoming_block, is_stale_block,
}
use distributed_p2p_ledger.Gossip.Invariant.{knows}
use distributed_p2p_ledger.Gossip.Submit.{submit_transaction-result, submit_transaction_failed}
use distributed_p2p_ledger.Api.{
  Request, decode, accept, submit_reply, refuse_transaction, receive_block, block_reply,
}

sum-cases : {A B : Type 0} (s : A ⊎ B) → ((a : A) × (s ≡ inl a)) ⊎ ((b : B) × (s ≡ inr b))
sum-cases (inl a) = inl (a, refl)
sum-cases (inr b) = inr (b, refl)

submit_reply-ok :
    (incoming : Bool) (tx : Transaction) → (submit_reply incoming tx (ok tt)).code < 400
unfolding submit_reply
submit_reply-ok incoming tx = ground arith

module _ (json : JsonDecoder Transaction) (incoming : Bool) (env : Env) (req : Request)
    (g : Engine) where
  -- The status of the answer to a request that decodes to a transaction: 400 if it is not valid;
  -- 409, or 200 to a peer, if its ID is pending or confirmed; 429 if the pool is full; otherwise
  -- 202, or 200 to a peer.
  pub accept-code :
      (tx : Transaction)
      → decode json req ≡ inr tx
      → (accept json incoming env req g).0.code ≡ (elim (validate_transaction tx) [
        | err e ↦ 400
        | ok _ ↦
            if knows g tx.id
            then (if incoming then 200 else 409)
            else if leb max_pending (length g.mempool.transactions)
            then 429
            else if incoming
            then 200
            else 202
      ])
  unfolding accept submit_reply refuse_transaction
  accept-code tx h = ground (arith, submit_transaction-result env tx g)

  -- An answer that reports an error comes with an engine that is as it was.
  pub accept_refused :
      400 ≤ (accept json incoming env req g).0.code → (accept json incoming env req g).1 ≡ g
  unfolding accept submit_reply
  accept_refused h = elim (sum-cases (decode json req)) [
    | inl (refusal, d) ↦ rw (d, accept) refl
    | inr (tx, d) ↦ elim (Result-cases (validate_transaction tx)) [
      | inr (e, invalid) ↦ rw (d, invalid, accept) refl
      | inl (_, valid) ↦ elim (Result-cases (submit_transaction env tx g).0) [
        | inr (e, failed) ↦ rw (d, valid, accept) (submit_transaction_failed env tx g e failed)
        | inl (_, accepted) ↦ absurd (ground (arith, submit_reply-ok incoming tx))
      ]
    ]
  ]

module _ (json : JsonDecoder Block) (now : ℕ) (env : Env) (req : Request) (g : Engine) where
  -- The status of the answer to a request that decodes to a block: 400 if the handler's own
  -- validation refuses it; otherwise 202 if the engine accepts it, 409 if the engine calls it
  -- stale, and 422 for any other error of the engine.
  pub receive_block-code :
      (b : Block)
      → decode json req ≡ inr b
      → (receive_block json now env req g).0.code
        ≡ (elim (validate_block now b g.chain_store.difficulty) [
          | err e ↦ 400
          | ok _ ↦ elim (handle_incoming_block env b g).0 [
            | ok _ ↦ 202
            | err e ↦ if is_stale_block e then 409 else 422
          ]
        ])
  unfolding receive_block block_reply
  receive_block-code b h = ground arith
