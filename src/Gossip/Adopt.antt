-- ===== src/Gossip/Adopt.antt =====
-- `adopt`: a reorganisation of chain and pool.
pub mod Keeps
use mathlib.Core.Path.{subst}
use distributed_p2p_ledger.Base.{
  ℕ, suc, ◌+◌, ◌≤◌, ◌≡◌, refl, ap, ◌∙◌, inl, inr, ◌⊎◌, Bool-cases, true, not, ◌||◌, ◌&&◌, List, [],
  ◌∷◌, ◌++◌, Bytes, length, arith, All, Apart-of, has, Result, Result-cases, ok, err, Error, ltb,
}
use distributed_p2p_ledger.Models.Transaction.{Transaction, tx_ids, IsValidTransaction}
use distributed_p2p_ledger.Models.Block.{Block, ids}
use distributed_p2p_ledger.Models.Chain.{better_chain, chain_ids}
use distributed_p2p_ledger.Storage.{get_chain, clone_chain, replace_chain}
use distributed_p2p_ledger.Storage.Invariant.{
  IsLedgerChain, clone_chain-ledger, ledger-transactions,
}
use distributed_p2p_ledger.Storage.Append.{SameLedger, SameLedger-refl}
use distributed_p2p_ledger.Storage.Replace.{
  Progresses, Replaced, replace_chain-ok, replace_chain_failed, replace_chain-IsValidStore,
  replace_chain-Progresses,
}
use distributed_p2p_ledger.Mempool.{max_pending, prepare_reorg, replace}
use distributed_p2p_ledger.Mempool.Invariant.{IsValidPool, pending_ids}
use distributed_p2p_ledger.Mempool.Reorg.{prepare_reorg_lem}
use distributed_p2p_ledger.Mempool.Replace.{replace-IsValidPool, pending_ids-replace}
use distributed_p2p_ledger.Gossip.{Engine, Env, check_adopt, commit_adopt, adopt}
use distributed_p2p_ledger.Gossip.Invariant.{IsValidEngine, SamePeers, SamePeers-refl, knows}

-- A clone has the same transactions.
pub chain_ids-clone_chain : (chain : List Block) → chain_ids (clone_chain chain) ≡ chain_ids chain
unfolding clone_chain
chain_ids-clone_chain [] = refl
chain_ids-clone_chain (b ∷ chain) = ap (◌++◌ (ids b)) (chain_ids-clone_chain chain)

length-tx_ids : (txs : List Transaction) → length (tx_ids txs) ≡ length txs
length-tx_ids [] = refl
length-tx_ids (tx ∷ txs) = ap suc (length-tx_ids txs)

-- The transactions that a prepared reorganisation keeps pending.
pub record Kept (chain : List Block) (g : Engine) (pending : List Transaction) : Type 0 where
  pub exact : (k : Bytes) → has (tx_ids pending) k ≡ (knows g k && not (has (chain_ids chain) k))
  pub valid : All IsValidTransaction pending
  pub bounded : length pending ≤ max_pending

module _ {horizon : ℕ} (env : Env) (chain : List Block) (g : Engine)
    (v : IsValidEngine horizon g) where
  open g use {chain_store}

  pub old-clone : get_chain chain_store ≡ ok chain_store.chain
  unfolding get_chain
  old-clone =
      ap ok (clone_chain-ledger horizon chain_store.difficulty chain_store.chain v.store.ledger)

  kept :
      (pending : List Transaction)
      → prepare_reorg chain_store.chain chain g.mempool ≡ ok pending
      → Kept chain g pending
  kept pending h =
      let (next, p) =
        prepare_reorg_lem chain_store.chain chain g.mempool v.pool
          (ledger-transactions horizon chain_store.difficulty chain_store.chain v.store.ledger) in
      elim (Bool-cases (ltb max_pending (length next))) [
        | inl more ↦ absurd (ground (arith, p.refused))
        | inr fits ↦
            let (out, made, same, _, valid) = p.accepted (ground arith) in
            let e : out ≡ pending = ground arith in
            subst (λ (o : List Transaction). Kept chain g o) e
              (record {
                exact = λ k. rw same (ground (arith, p.exact k, v.store.indexed k));
                valid = valid;
                bounded = ground (arith, length-tx_ids out, ap (λ (l : List Bytes). length l) same);
              })
      ]

  -- What `adopt` has checked before it writes.
  check_adopt-ok :
      (pending : List Transaction)
      → check_adopt chain g ≡ ok pending
      → (better_chain chain chain_store.chain ≡ true) × Kept chain g pending
  unfolding check_adopt
  check_adopt-ok pending h = (ground (arith, old-clone), kept pending (ground (arith, old-clone)))

  pub commit_adopt_replaced :
      (pending : List Transaction)
      → (replace_chain env.now env.io chain chain_store).0 ≡ ok tt
      → commit_adopt env chain pending g ≡ (
        ok tt,
        record g {
          chain_store = (replace_chain env.now env.io chain chain_store).1;
          mempool = replace pending g.mempool;
          generation = g.generation + 1;
        },
      )
  unfolding commit_adopt
  commit_adopt_replaced pending h = rw (h, commit_adopt) refl

  commit_adopt_refused :
      (pending : List Transaction) (e : Error)
      → (replace_chain env.now env.io chain chain_store).0 ≡ err e
      → commit_adopt env chain pending g
        ≡ (err e, record g { chain_store = (replace_chain env.now env.io chain chain_store).1 })
  unfolding commit_adopt
  commit_adopt_refused pending e h = rw (h, commit_adopt) refl

  adopt_refused : (e : Error) → check_adopt chain g ≡ err e → adopt env chain g ≡ (err e, g)
  unfolding adopt
  adopt_refused e h = rw (h, adopt) refl

  pub adopt_checked :
      (pending : List Transaction)
      → check_adopt chain g ≡ ok pending
      → adopt env chain g ≡ commit_adopt env chain pending g
  unfolding adopt
  adopt_checked pending h = rw (h, adopt) refl

-- What a successful `adopt` changes.
pub record Adopted (chain : List Block) (g t : Engine) : Type 0 where
  pub replaced : Replaced (clone_chain chain) g.chain_store t.chain_store
  pub pending :
      (k : Bytes) → has (pending_ids t.mempool) k ≡ (knows g k && not (has (chain_ids chain) k))
  pub known : (k : Bytes) → knows t k ≡ (knows g k || has (chain_ids chain) k)
  pub pool : IsValidPool t.mempool
  pub generation : t.generation ≡ g.generation + 1
  pub jobs : t.jobs ≡ g.jobs
  pub same_peers : SamePeers g t

-- Where `adopt` ends: refused by its checks, refused by the store, or done.
data Outcome (env : Env) (chain : List Block) (g : Engine) (r : Result (Unit {0}) × Engine)
    : Type 0 where
  refused : (e : Error) → r ≡ (err e, g) → Outcome env chain g r
  unsaved :
      (e : Error)
      → r ≡ (err e, record g { chain_store = (replace_chain env.now env.io chain g.chain_store).1 })
      → (replace_chain env.now env.io chain g.chain_store).0 ≡ err e
      → Outcome env chain g r
  done :
      r.0 ≡ ok tt
      → better_chain chain g.chain_store.chain ≡ true
      → better_chain (clone_chain chain) g.chain_store.chain ≡ true
      → IsLedgerChain env.now g.chain_store.difficulty (clone_chain chain)
      → r.1.chain_store ≡ (replace_chain env.now env.io chain g.chain_store).1
      → Adopted chain g r.1
      → Outcome env chain g r

module _ {horizon : ℕ} (env : Env) (chain : List Block) (g : Engine)
    (v : IsValidEngine horizon g) where
  open g use {chain_store}

  adopted :
      (pending : List Transaction)
      → Kept chain g pending
      → (replace_chain env.now env.io chain chain_store).0 ≡ ok tt
      → Adopted chain g (record g {
        chain_store = (replace_chain env.now env.io chain chain_store).1;
        mempool = replace pending g.mempool;
        generation = g.generation + 1;
      })
  adopted pending k h =
      let (_, _, _, _, r) = replace_chain-ok env.now env.io chain chain_store h in
      let in_pool = λ (id : Bytes). pending_ids-replace pending g.mempool id ∙ k.exact id in
      let confirmed = λ (id : Bytes).
        r.indexed id ∙ ap (λ (l : List Bytes). has l id) (chain_ids-clone_chain chain) in
      record {
        replaced = r;
        pending = in_pool;
        known = λ id. ground (arith, in_pool id, confirmed id);
        pool = replace-IsValidPool pending g.mempool k.valid k.bounded;
        generation = refl;
        jobs = refl;
        same_peers = record { peers = refl; next_peer = refl };
      }

  -- The end of the last branch.
  adopted-Outcome :
      (pending : List Transaction)
      → (better_chain chain chain_store.chain ≡ true)
      → Kept chain g pending
      → (replace_chain env.now env.io chain chain_store).0 ≡ ok tt
      → Outcome env chain g (commit_adopt env chain pending g)
  adopted-Outcome pending better k stored =
      let (ledger, clone_better, _, _, _) =
        replace_chain-ok env.now env.io chain chain_store stored in
      rw (commit_adopt_replaced env chain g v pending stored)
        (Outcome.done refl better clone_better ledger refl (adopted pending k stored))

  adopt-Outcome : Outcome env chain g (adopt env chain g)
  adopt-Outcome = elim (Result-cases (check_adopt chain g)) [
    | inr (e, h) ↦ Outcome.refused e (adopt_refused env chain g v e h)
    | inl (pending, h) ↦
        let (better, k) = check_adopt-ok env chain g v pending h in
        rw (adopt_checked env chain g v pending h)
          (elim (Result-cases (replace_chain env.now env.io chain chain_store).0) [
            | inr (e, h') ↦ Outcome.unsaved e (commit_adopt_refused env chain g v pending e h') h'
            | inl (_, stored) ↦ adopted-Outcome pending better k stored
          ])
  ]

  -- On an engine that satisfies the invariant, a chain that `adopt` takes is preferred to the one
  -- before and its copy is a ledger; the copy is stored, and pending are exactly the IDs that
  -- were pending or confirmed and that it does not confirm.
  pub adopt-ok :
      (adopt env chain g).0 ≡ ok tt
      → (better_chain chain chain_store.chain ≡ true)
        × IsLedgerChain env.now chain_store.difficulty (clone_chain chain)
        × Adopted chain g (adopt env chain g).1
  adopt-ok h = elim adopt-Outcome [
    | Outcome.refused e h' ↦ absurd (ground arith)
    | Outcome.unsaved e h' _ ↦ absurd (ground arith)
    | Outcome.done _ better _ ledger _ a ↦ (better, ledger, a)
  ]
