-- ===== src/Gossip/Adopt/Keeps.antt =====
-- What `adopt` keeps.
use distributed_p2p_ledger.Base.{
  ℕ, ◌≤◌, ◌≡◌, refl, ap, inl, inr, ◌⊎◌, true, List, Bytes, arith, Apart-of, has, Result-cases, err,
  Error,
}
use distributed_p2p_ledger.Models.Block.{Block}
use distributed_p2p_ledger.Storage.{replace_chain}
use distributed_p2p_ledger.Storage.Append.{SameLedger, SameLedger-refl}
use distributed_p2p_ledger.Storage.Replace.{
  Progresses, Replaced, replace_chain_failed, replace_chain-IsValidStore, replace_chain-Progresses,
}
use distributed_p2p_ledger.Mempool.Invariant.{pending_ids}
use distributed_p2p_ledger.Gossip.{Engine, Env, adopt}
use distributed_p2p_ledger.Gossip.Invariant.{IsValidEngine, SamePeers, SamePeers-refl, knows}
use distributed_p2p_ledger.Gossip.Adopt.{chain_ids-clone_chain, Outcome, adopt-Outcome, adopt-ok}

module _ {horizon : ℕ} (env : Env) (chain : List Block) (g : Engine)
    (v : IsValidEngine horizon g) where
  open g use {chain_store}

  -- On an engine that satisfies the invariant, a reorganisation that is refused, or cannot be
  -- saved, changes neither chain, index, difficulty and chain file, nor the pool, nor the
  -- generation.
  pub adopt_failed :
      (e : Error)
      → (adopt env chain g).0 ≡ err e
      → SameLedger chain_store (adopt env chain g).1.chain_store
        × ((adopt env chain g).1.mempool ≡ g.mempool)
        × ((adopt env chain g).1.generation ≡ g.generation)
  adopt_failed e h = elim (adopt-Outcome env chain g v) [
    | Outcome.refused e' h' ↦ rw h' (SameLedger-refl chain_store, refl, refl)
    | Outcome.unsaved e' h' store ↦
        rw h' (replace_chain_failed env.now env.io chain chain_store e' store, refl, refl)
    | Outcome.done h' _ _ _ _ _ ↦ absurd (ground arith)
  ]

  -- `adopt` keeps the engine's invariant on every branch, with a clock reading up to the horizon.
  pub adopt-IsValidEngine : env.now ≤ horizon → IsValidEngine horizon (adopt env chain g).1
  adopt-IsValidEngine le = elim (adopt-Outcome env chain g v) [
    | Outcome.refused e h ↦ rw h v
    | Outcome.unsaved e h failed ↦
        let same = replace_chain_failed env.now env.io chain chain_store e failed in
        let store = replace_chain-IsValidStore env.now env.io chain chain_store le v.store in
        rw h
          (record { store = store; pool = v.pool; apart = rw same.tx_ids v.apart; jobs = v.jobs })
    | Outcome.done _ _ _ _ store a ↦ record {
      store = rw store (replace_chain-IsValidStore env.now env.io chain chain_store le v.store);
      pool = a.pool;
      apart =
          Apart-of (pending_ids (adopt env chain g).1.mempool)
            (adopt env chain g).1.chain_store.tx_ids
            (λ k m. ground (
              arith,
              a.pending k,
              a.replaced.indexed k,
              ap (λ (l : List Bytes). has l k) (chain_ids-clone_chain chain),
            ));
      jobs = rw a.jobs v.jobs;
    }
  ]

  -- `adopt` loses no transaction of an engine that satisfies the invariant: an ID that was
  -- pending or confirmed is pending or confirmed, on every branch.
  pub adopt-knows : (k : Bytes) → knows g k ≡ true → knows (adopt env chain g).1 k ≡ true
  adopt-knows k known = elim (Result-cases (adopt env chain g).0) [
    | inl (_, h) ↦ let (_, _, a) = adopt-ok env chain g v h in ground (arith, a.known k)
    | inr (e, h) ↦ let (store, pool, _) = adopt_failed e h in rw (pool, store.tx_ids) known
  ]

  -- The chain is the same or better.
  pub adopt-Progresses : Progresses chain_store.chain (adopt env chain g).1.chain_store.chain
  adopt-Progresses = elim (adopt-Outcome env chain g v) [
    | Outcome.refused e h ↦ rw h (inl refl)
    | Outcome.unsaved e h failed ↦ rw h (replace_chain-Progresses env.now env.io chain chain_store)
    | Outcome.done _ _ better _ _ a ↦ inr (rw (Replaced.chain a.replaced) better)
  ]

  pub adopt-SamePeers : SamePeers g (adopt env chain g).1
  adopt-SamePeers = elim (adopt-Outcome env chain g v) [
    | Outcome.refused e h ↦ rw h (SamePeers-refl g)
    | Outcome.unsaved e h _ ↦ rw h (record { peers = refl; next_peer = refl })
    | Outcome.done _ _ _ _ _ a ↦ a.same_peers
  ]

  -- The store is the same, or what `ReplaceChain` leaves.
  pub adopt-store :
      ((adopt env chain g).1.chain_store ≡ chain_store)
      ⊎ ((adopt env chain g).1.chain_store ≡ (replace_chain env.now env.io chain chain_store).1)
  adopt-store = elim (adopt-Outcome env chain g v) [
    | Outcome.refused e h ↦ inl (ap (λ r. r.1.chain_store) h)
    | Outcome.unsaved e h _ ↦ inr (ap (λ r. r.1.chain_store) h)
    | Outcome.done _ _ _ _ store _ ↦ inr store
  ]
