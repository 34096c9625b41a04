-- ===== src/Gossip/Agreement.antt =====
-- Nodes that sync with each other come to the same chain.
use distributed_p2p_ledger.Base.{
  ◌≤◌, ◌≡◌, refl, sym, ap, ◌∙◌, ◌⊎◌, inl, inr, Bool-cases, true, false, List, length, arith,
  Result-cases, ok, err, Error, Result,
}
use distributed_p2p_ledger.Models.Transaction.{Transaction}
use distributed_p2p_ledger.Models.Block.{Block}
use distributed_p2p_ledger.Models.Chain.{encode_chain, better_chain, validate_chain, tip_hash}
use distributed_p2p_ledger.Models.Chain.Choice.{better_chain_irrefl, better_chain_total}
use distributed_p2p_ledger.Mempool.{prepare_reorg}
use distributed_p2p_ledger.Storage.ChainFile.{max_chain_bytes}
use distributed_p2p_ledger.Storage.Save.{AllSucceed}
use distributed_p2p_ledger.Storage.Invariant.{
  IsLedgerChain, IsLedgerChain-later, clone_chain-ledger,
}
use distributed_p2p_ledger.Storage.Replace.{
  IsLedgerChain-validate_chain, Replaced, replace_chain_replaces,
}
use distributed_p2p_ledger.Gossip.{Engine, Env, adopt, check_adopt, sync_chain}
use distributed_p2p_ledger.Gossip.Invariant.{IsValidEngine, IsValidEngine-later}
use distributed_p2p_ledger.Gossip.Adopt.{adopt-ok, old-clone, adopt_checked, commit_adopt_replaced}
use distributed_p2p_ledger.Gossip.Adopt.Keeps.{adopt_failed}

-- The engine can take over this chain: saving it succeeds, and the pool has room for what it does not
-- confirm.
pub record CanTake (env : Env) (chain : List Block) (g : Engine) : Type 0 where
  pub io : AllSucceed env.io
  pub fits : length (encode_chain chain) ≤ max_chain_bytes
  pub pending : List Transaction
  pub room : prepare_reorg g.chain_store.chain chain g.mempool ≡ ok pending

err_ok : {e : Error} → ◌≡◌ {A = Result (Unit {0})} (err e) (ok tt) → ⊥
err_ok h = absurd cc

module _ (env : Env) (chain : List Block) (g : Engine) (v : IsValidEngine env.now g)
    (ledger : IsLedgerChain env.now g.chain_store.difficulty chain) where
  adopt_takes :
      CanTake env chain g
      → better_chain chain g.chain_store.chain ≡ true
      → (adopt env chain g).0 ≡ ok tt
  unfolding check_adopt
  adopt_takes c better =
      let same = clone_chain-ledger env.now g.chain_store.difficulty chain ledger in
      let checked : check_adopt chain g ≡ ok c.pending =
        ground (arith, old-clone env chain g v, c.room) in
      let replaced =
        replace_chain_replaces env.now env.io chain g.chain_store (rw same ledger) (rw same better)
          c.io (rw same c.fits) in
      ap (λ r. r.0)
        (adopt_checked env chain g v c.pending checked
          ∙ commit_adopt_replaced env chain g v c.pending replaced)

  -- The chain is now this one, or it is the one before.
  abbrev OneOf : Engine → Type 0
  OneOf t = (t.chain_store.chain ≡ chain) ⊎ (t.chain_store.chain ≡ g.chain_store.chain)

  adopt-catches_up :
      CanTake env chain g
      → (better_chain chain (adopt env chain g).1.chain_store.chain ≡ false)
        × OneOf (adopt env chain g).1
  adopt-catches_up c = elim (Result-cases (adopt env chain g).0) [
    | inl (_, h) ↦
        let (_, _, a) = adopt-ok env chain g v h in
        let same =
          Replaced.chain a.replaced
          ∙ clone_chain-ledger env.now g.chain_store.difficulty chain ledger in
        (rw same (better_chain_irrefl chain), inl same)
    | inr (e, h) ↦
        let (store, _, _) = adopt_failed env chain g v e h in
        elim (Bool-cases (better_chain chain g.chain_store.chain)) [
          | inl better ↦ absurd (err_ok (sym h ∙ adopt_takes c better))
          | inr other ↦ (rw store.chain other, inr store.chain)
        ]
  ]

  pub sync_chain-catches_up :
      CanTake env chain g
      → (better_chain chain (sync_chain env (ok chain) g).chain_store.chain ≡ false)
        × OneOf (sync_chain env (ok chain) g)
  unfolding sync_chain
  sync_chain-catches_up c =
      rw (IsLedgerChain-validate_chain env.now g.chain_store.difficulty chain ledger, sync_chain)
        (adopt-catches_up c)

adopt-kept :
    (env : Env) (chain : List Block) (g : Engine)
    → IsValidEngine env.now g
    → better_chain chain g.chain_store.chain ≡ false
    → (adopt env chain g).1.chain_store.chain ≡ g.chain_store.chain
adopt-kept env chain g v other = elim (Result-cases (adopt env chain g).0) [
  | inl (_, h) ↦ let (better, _, _) = adopt-ok env chain g v h in absurd cc
  | inr (e, h) ↦ let (store, _, _) = adopt_failed env chain g v e h in store.chain
]

sync_chain-kept :
    (env : Env) (chain : List Block) (g : Engine)
    → IsValidEngine env.now g
    → better_chain chain g.chain_store.chain ≡ false
    → (sync_chain env (ok chain) g).chain_store.chain ≡ g.chain_store.chain
unfolding sync_chain
sync_chain-kept env chain g v other =
    elim (Result-cases (validate_chain env.now chain g.chain_store.difficulty)) [
      | inr (e, h) ↦ rw (h, sync_chain) refl
      | inl (_, h) ↦ rw (h, sync_chain) (adopt-kept env chain g v other)
    ]

-- The engine after a sync in which `peer` answered with its chain.
abbrev pub after_sync : Env → Engine → Engine → Engine
after_sync env peer g = sync_chain env (ok peer.chain_store.chain) g

-- The chains of the two are as long, and have the same tip.
abbrev pub Agree : Engine → Engine → Type 0
Agree s t =
    (length s.chain_store.chain ≡ length t.chain_store.chain)
    × (tip_hash s.chain_store.chain ≡ tip_hash t.chain_store.chain)

equal-Agree : (s t : Engine) → s.chain_store.chain ≡ t.chain_store.chain → Agree s t
equal-Agree s t e = (ap length e, ap tip_hash e)

-- Two engines with the same difficulty. The second syncs with the first at `env_b.now`, and then the
-- first with the second, not earlier.
module _ (env_a env_b : Env) (a b : Engine) (v : IsValidEngine env_b.now a)
    (u : IsValidEngine env_b.now b) (same : a.chain_store.difficulty ≡ b.chain_store.difficulty)
    (le : env_b.now ≤ env_a.now) where
  abbrev synced_b : Engine
  synced_b = after_sync env_b a b

  abbrev synced_a : Engine
  synced_a = after_sync env_a synced_b a

  later_a : IsValidEngine env_a.now a
  later_a = IsValidEngine-later env_b.now env_a.now a le v

  -- The second has taken over the chain of the first.
  taken-Agree : synced_b.chain_store.chain ≡ a.chain_store.chain → Agree synced_a synced_b
  taken-Agree e = equal-Agree synced_a synced_b (
      sync_chain-kept env_a synced_b.chain_store.chain a later_a
        (rw e (better_chain_irrefl a.chain_store.chain))
      ∙ sym e)

  -- The second has kept its own.
  kept-Agree :
      CanTake env_a b.chain_store.chain a
      → better_chain a.chain_store.chain synced_b.chain_store.chain ≡ false
      → synced_b.chain_store.chain ≡ b.chain_store.chain
      → Agree synced_a synced_b
  kept-Agree d no_better kept =
      let ledger : IsLedgerChain env_a.now a.chain_store.difficulty synced_b.chain_store.chain =
        rw (kept, same)
          (IsLedgerChain-later env_b.now env_a.now b.chain_store.difficulty b.chain_store.chain le
            u.store.ledger) in
      let (caught, result) =
        sync_chain-catches_up env_a synced_b.chain_store.chain a later_a ledger (rw kept d) in
      elim result [
        | inl taken ↦ equal-Agree synced_a synced_b taken
        | inr own ↦
            better_chain_total synced_a.chain_store.chain synced_b.chain_store.chain
              (rw own no_better) caught
      ]

  -- Two nodes with the same difficulty that satisfy the invariant, of which the second syncs with
  -- the chain of the first and then the first with that of the second, not earlier: if each can
  -- save the chain that the other had before and has room in its pool for what that chain does
  -- not confirm, their chains are then as long and have the same tip hash.
  pub sync_chain-Agree :
      CanTake env_b a.chain_store.chain b
      → CanTake env_a b.chain_store.chain a
      → Agree (after_sync env_a (after_sync env_b a b) a) (after_sync env_b a b)
  sync_chain-Agree c d =
      let (no_better, result) =
        sync_chain-catches_up env_b a.chain_store.chain b u (rw (← same) v.store.ledger) c in
      elim result [ inl taken ↦ taken-Agree taken | inr kept ↦ kept-Agree d no_better kept ]
