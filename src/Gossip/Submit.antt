-- ===== src/Gossip/Submit.antt =====
-- `SubmitTransaction`.
use distributed_p2p_ledger.Base.{
  ℕ, ◌<◌, ◌≡◌, ◌↔◌, refl, ap, ◌∙◌, inl, inr, Bool-cases, true, false, ◌||◌, Bytes, codes, length,
  arith, Apart-of, Apart-has, has, ◌==ₛ◌, eq_of_==ₛ, has-keys, leb, Result, Result-cases, ok, err,
  Error, reject, ◌>>◌, duplicate, full,
}
use distributed_p2p_ledger.Models.Transaction.{
  Transaction, encode_transaction, validate_transaction, IsValidTransaction,
}
use distributed_p2p_ledger.Storage.{transaction_exists}
use distributed_p2p_ledger.Mempool.{try_add, check_add, max_pending}
use distributed_p2p_ledger.Mempool.Invariant.{
  pending_ids, try_add-ok_iff, try_add-IsValidPool, pending_ids-try_add, try_add_failed,
}
use distributed_p2p_ledger.Gossip.{Engine, Env, admit, relay_transaction, submit_transaction}
use distributed_p2p_ledger.Gossip.Invariant.{
  IsValidEngine, SamePeers, SamePeers-refl, knows, SameHoldings, broadcast-SameHoldings,
  SameHoldings-knows, SameHoldings-IsValidEngine,
}

module _ (tx : Transaction) (g : Engine) where
  admit_known : has g.chain_store.tx_ids tx.id ≡ true → admit tx g ≡ (err duplicate, g)
  unfolding admit transaction_exists
  admit_known h = ground arith

  admit_new :
      has g.chain_store.tx_ids tx.id ≡ false
      → admit tx g ≡ ((try_add tx g.mempool).0, record g { mempool = (try_add tx g.mempool).1 })
  unfolding admit transaction_exists
  admit_new h = ground arith

  -- Only a valid transaction that the engine does not know yet, and for which the pool has room, is
  -- admitted.
  pub admit-ok_iff : ((admit tx g).0 ≡ ok tt) ↔ (
      IsValidTransaction tx
      × (knows g tx.id ≡ false)
      × (length g.mempool.transactions < max_pending))
  admit-ok_iff = elim (Bool-cases (has g.chain_store.tx_ids tx.id)) [
    | inl e ↦ rw (admit_known e) (λ h. absurd (ground arith), λ h. absurd (ground arith))
    | inr e ↦
        let pool = try_add-ok_iff tx g.mempool in
        rw (admit_new e) (
          λ h. ((pool.0 h).0, ground (arith, (pool.0 h).1), (pool.0 h).2),
          λ h. pool.1 (h.0, ground (arith, h.1), h.2),
        )
  ]

  admit_failed : (e : Error) → (admit tx g).0 ≡ err e → (admit tx g).1 ≡ g
  admit_failed e h = elim (Bool-cases (has g.chain_store.tx_ids tx.id)) [
    | inl known ↦ rw (admit_known known) refl
    | inr new ↦ rw (admit_new new) (
        ground (
          arith,
          try_add_failed tx g.mempool e,
          ap (λ (r : Result (Unit {0}) × Engine). r.0) (admit_new new),
        ))
  ]

  admit-IsValidEngine :
      (now : ℕ) → (admit tx g).0 ≡ ok tt → IsValidEngine now g → IsValidEngine now (admit tx g).1
  admit-IsValidEngine now h v =
      let (valid, new, room) = admit-ok_iff.0 h in
      let new' : has g.chain_store.tx_ids tx.id ≡ false = ground arith in
      let added = (try_add-ok_iff tx g.mempool).1 (valid, ground arith, room) in
      rw (admit_new new') (record {
        store = v.store;
        pool = try_add-IsValidPool tx g.mempool v.pool;
        apart = Apart-of (pending_ids (try_add tx g.mempool).1) g.chain_store.tx_ids (λ k m.
            ground (
              arith,
              pending_ids-try_add tx g.mempool k added,
              eq_of_==ₛ tx.id k,
              Apart-has (pending_ids g.mempool) g.chain_store.tx_ids k v.apart,
            ));
        jobs = v.jobs;
      })

  admit-knows :
      (k : Bytes) → (admit tx g).0 ≡ ok tt → knows (admit tx g).1 k ≡ ((tx.id ==ₛ k) || knows g k)
  admit-knows k h =
      let (valid, new, room) = admit-ok_iff.0 h in
      let new' : has g.chain_store.tx_ids tx.id ≡ false = ground arith in
      let added = (try_add-ok_iff tx g.mempool).1 (valid, ground arith, room) in
      rw (admit_new new') (ground (arith, pending_ids-try_add tx g.mempool k added))

  admit-SamePeers : SamePeers g (admit tx g).1
  unfolding admit
  admit-SamePeers = record { peers = ground arith; next_peer = ground arith }

  store-admit : (admit tx g).1.chain_store ≡ g.chain_store
  unfolding admit
  store-admit = ground arith

module _ (env : Env) (tx : Transaction) (g : Engine) where
  -- What `SubmitTransaction` returns, on every branch: first the validation's error, then
  -- `duplicate` if the ID is confirmed or pending, then `full` if the pool is.
  pub submit_transaction-result : (submit_transaction env tx g).0 ≡ (do
    validate_transaction tx
    reject (knows g tx.id) duplicate
    reject (leb max_pending (length g.mempool.transactions)) full)
  unfolding submit_transaction relay_transaction admit transaction_exists try_add check_add
  submit_transaction-result = ground (arith, has-keys tx.id g.mempool.transactions)

  -- A refused transaction changes nothing, and nothing is sent.
  pub submit_transaction_failed :
      (e : Error) → (submit_transaction env tx g).0 ≡ err e → (submit_transaction env tx g).1 ≡ g
  unfolding submit_transaction relay_transaction
  submit_transaction_failed e h = ground (arith, admit_failed tx g e)

  -- An accepted transaction is admitted, and then only relayed.
  submit_transaction_relays :
      (submit_transaction env tx g).0 ≡ ok tt
      → ((admit tx g).0 ≡ ok tt) × SameHoldings (admit tx g).1 (submit_transaction env tx g).1
  unfolding submit_transaction relay_transaction
  submit_transaction_relays h = (
    ground arith,
    ground (
      arith,
      broadcast-SameHoldings env (codes "/gossip") (encode_transaction tx) (admit tx g).1,
    ),
  )

  -- A transaction that `SubmitTransaction` accepts is valid and its ID was neither pending nor
  -- confirmed; afterwards exactly its ID and those known before are known, and the store is the
  -- same.
  pub submit_transaction-ok :
      (submit_transaction env tx g).0 ≡ ok tt
      → IsValidTransaction tx
        × (knows g tx.id ≡ false)
        × ((k : Bytes) → knows (submit_transaction env tx g).1 k ≡ ((tx.id ==ₛ k) || knows g k))
        × ((submit_transaction env tx g).1.chain_store ≡ g.chain_store)
  submit_transaction-ok h =
      let (admitted, same) = submit_transaction_relays h in
      let (valid, new, _) = (admit-ok_iff tx g).0 admitted in
      (
        valid,
        new,
        λ k.
            SameHoldings-knows (admit tx g).1 (submit_transaction env tx g).1 k same
            ∙ admit-knows tx g k admitted,
        same.store ∙ store-admit tx g,
      )

-- `SubmitTransaction` keeps the engine's invariant on every branch.
pub submit_transaction-IsValidEngine :
    (now : ℕ) (env : Env) (tx : Transaction) (g : Engine)
    → IsValidEngine now g
    → IsValidEngine now (submit_transaction env tx g).1
submit_transaction-IsValidEngine now env tx g v =
    elim (Result-cases (submit_transaction env tx g).0) [
      | inl (_, h) ↦
          let (admitted, same) = submit_transaction_relays env tx g h in
          SameHoldings-IsValidEngine now (admit tx g).1 (submit_transaction env tx g).1 same
            (admit-IsValidEngine tx g now admitted v)
      | inr (e, h) ↦ rw (submit_transaction_failed env tx g e h) v
    ]

-- What was known stays known.
pub submit_transaction-knows :
    (env : Env) (tx : Transaction) (g : Engine) (k : Bytes)
    → knows g k ≡ true
    → knows (submit_transaction env tx g).1 k ≡ true
submit_transaction-knows env tx g k known = elim (Result-cases (submit_transaction env tx g).0) [
  | inl (_, h) ↦ let (_, _, gains, _) = submit_transaction-ok env tx g h in ground (arith, gains k)
  | inr (e, h) ↦ rw (submit_transaction_failed env tx g e h) known
]

pub chain-submit_transaction :
    (env : Env) (tx : Transaction) (g : Engine)
    → (submit_transaction env tx g).1.chain_store ≡ g.chain_store
chain-submit_transaction env tx g = elim (Result-cases (submit_transaction env tx g).0) [
  | inl (_, h) ↦ let (_, _, _, same) = submit_transaction-ok env tx g h in same
  | inr (e, h) ↦ ap (λ (t : Engine). t.chain_store) (submit_transaction_failed env tx g e h)
]

pub submit_transaction-SamePeers :
    (env : Env) (tx : Transaction) (g : Engine) → SamePeers g (submit_transaction env tx g).1
submit_transaction-SamePeers env tx g = elim (Result-cases (submit_transaction env tx g).0) [
  | inl (_, h) ↦
      let (_, same) = submit_transaction_relays env tx g h in
      let admitted = admit-SamePeers tx g in
      record {
        peers = same.peers ∙ admitted.peers;
        next_peer = same.next_peer ∙ admitted.next_peer;
      }
  | inr (e, h) ↦ rw (submit_transaction_failed env tx g e h) (SamePeers-refl g)
]
