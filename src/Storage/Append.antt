-- ===== src/Storage/Append.antt =====
-- `AddBlock`.
use mathlib.Core.Path.{subst, ap₂}
use distributed_p2p_ledger.Base.{
  ℕ, ◌≤◌, ◌≡◌, refl, ap, ◌∙◌, inl, inr, ◌||◌, List, [], ◌∷◌, ◌++◌, append-nil, Bytes, length, arith,
  some, has, has-append, elements, Result-cases, ok, err, Error,
}
use distributed_p2p_ledger.Models.Block.{Block, ids}
use distributed_p2p_ledger.Models.Chain.{encode_chain, chain_ids}
use distributed_p2p_ledger.Models.Chain.Extend.{chain_ids-append}
use distributed_p2p_ledger.Storage.{Store, clone_chain, check_append, commit_append, add_block}
use distributed_p2p_ledger.Storage.ChainFile.{Faults, save_unlocked, max_chain_bytes}
use distributed_p2p_ledger.Storage.Save.{
  AllSucceed, save_unlocked-ok, save_unlocked_succeeds, file-save_unlocked,
  file-save_unlocked_failed,
}
use distributed_p2p_ledger.Storage.Invariant.{
  IsValidStore, clone_chain-ledger, clone_chain-append, clone_valid, has-set_ids,
}
use distributed_p2p_ledger.Storage.Extends.{
  Extends, Extends-later, check_append-Extends, Extends-check_append, Extends-IsLedgerChain,
}

-- Nothing that is confirmed or saved differs.
pub record SameLedger (s t : Store) : Type 0 where
  pub chain : t.chain ≡ s.chain
  pub tx_ids : t.tx_ids ≡ s.tx_ids
  pub difficulty : t.difficulty ≡ s.difficulty
  pub file : t.disk.file ≡ s.disk.file

pub SameLedger-refl : (s : Store) → SameLedger s s
SameLedger-refl s = record { chain = refl; tx_ids = refl; difficulty = refl; file = refl }

-- The block is appended, its transactions are indexed, and the file holds the new chain.
pub record Appended (b : Block) (s t : Store) : Type 0 where
  pub chain : t.chain ≡ s.chain ++ b ∷ []
  pub indexed : (k : Bytes) → has t.tx_ids k ≡ (has (ids b) k || has s.tx_ids k)
  pub difficulty : t.difficulty ≡ s.difficulty
  pub file : t.disk.file ≡ some (encode_chain (s.chain ++ b ∷ []))

module _ (io : Faults) (b : Block) (s : Store) where
  commit_append_failed :
      (e : Error) → (commit_append io b s).0 ≡ err e → SameLedger s (commit_append io b s).1
  unfolding commit_append
  commit_append_failed e h = record {
    chain = ground arith;
    tx_ids = ground arith;
    difficulty = ground arith;
    file = ground (arith, file-save_unlocked_failed io (clone_chain s.chain ++ b ∷ []) s.disk e);
  }

  commit_append_saved :
      (commit_append io b s).0 ≡ ok tt
      → (save_unlocked io (clone_chain s.chain ++ b ∷ []) s.disk).0 ≡ ok tt
  unfolding commit_append
  commit_append_saved h = ground arith

  commit_append_done :
      clone_chain s.chain ≡ s.chain
      → clone_chain (b ∷ []) ≡ b ∷ []
      → (save_unlocked io (s.chain ++ b ∷ []) s.disk).0 ≡ ok tt
      → ((commit_append io b s).0 ≡ ok tt) × Appended b s (commit_append io b s).1
  unfolding commit_append
  commit_append_done clone clone_b saved =
      let candidate : clone_chain s.chain ++ b ∷ [] ≡ s.chain ++ b ∷ [] =
        ap (λ (c : List Block). c ++ b ∷ []) clone in
      let cloned : clone_chain (clone_chain s.chain ++ b ∷ []) ≡ s.chain ++ b ∷ [] =
        ap clone_chain candidate ∙ clone_chain-append s.chain (b ∷ []) ∙ ap₂ ◌++◌ clone clone_b in
      (
        ground (arith, ap (λ (c : List Block). save_unlocked io (c ++ b ∷ []) s.disk) clone),
        record {
          chain =
              ground (
                arith,
                ap (λ (c : List Block). save_unlocked io (c ++ b ∷ []) s.disk) clone,
                cloned,
              );
          indexed = λ k. ground (
            arith,
            has-set_ids s.tx_ids (elements b.transactions) k,
            ap (λ (c : List Block). save_unlocked io (c ++ b ∷ []) s.disk) clone,
          );
          difficulty = ground arith;
          file = ground (
            arith,
            ap (λ (c : List Block). save_unlocked io (c ++ b ∷ []) s.disk) clone,
            file-save_unlocked io (s.chain ++ b ∷ []) s.disk,
          );
        },
      )

module _ (now : ℕ) (io : Faults) (b : Block) (s : Store) where
  -- A block that `AddBlock` refuses, or cannot save, leaves chain, index, difficulty and chain
  -- file as they were.
  pub add_block_failed :
      (e : Error) → (add_block now io b s).0 ≡ err e → SameLedger s (add_block now io b s).1
  unfolding add_block
  add_block_failed e h = ground (arith, commit_append_failed io b s e)

  module _ {horizon : ℕ} (v : IsValidStore horizon s) where
    clone_same : clone_chain s.chain ≡ s.chain
    clone_same = clone_chain-ledger horizon s.difficulty s.chain v.ledger

    -- On a store that satisfies the invariant, a block that extends the chain is accepted,
    -- appended, indexed and saved if all calls of the save succeed and the new chain fits into
    -- the file.
    pub add_block_appends :
        (prev : Block)
        → Extends now b prev s
        → AllSucceed io
        → length (encode_chain (s.chain ++ b ∷ [])) ≤ max_chain_bytes
        → ((add_block now io b s).0 ≡ ok tt) × Appended b s (add_block now io b s).1
    unfolding add_block
    add_block_appends prev x io_ok fits =
        rw (Extends-check_append now b s prev x, add_block)
          (commit_append_done io b s clone_same (clone_valid now s.difficulty b x.valid)
            (save_unlocked_succeeds io (s.chain ++ b ∷ []) s.disk io_ok fits))

    add_block_checked :
        (add_block now io b s).0 ≡ ok tt
        → (check_append now b s ≡ ok tt)
          × ((save_unlocked io (clone_chain s.chain ++ b ∷ []) s.disk).0 ≡ ok tt)
    unfolding add_block
    add_block_checked h = ground (arith, commit_append_saved io b s)

    -- On a store that satisfies the invariant, a block that `AddBlock` accepts extends the chain,
    -- all calls of the save succeeded, the new chain fits into the file, and the block is
    -- appended, indexed and saved.
    pub add_block-ok :
        (add_block now io b s).0 ≡ ok tt
        → (prev : Block) × Extends now b prev s
          × AllSucceed io
          × (length (encode_chain (s.chain ++ b ∷ [])) ≤ max_chain_bytes)
          × Appended b s (add_block now io b s).1
    add_block-ok h =
        let (checked, saved) = add_block_checked h in
        let saved' : (save_unlocked io (s.chain ++ b ∷ []) s.disk).0 ≡ ok tt =
          subst (λ (c : List Block). (save_unlocked io (c ++ b ∷ []) s.disk).0 ≡ ok tt) clone_same
            saved in
        let (prev, x) = check_append-Extends now b s checked in
        let (io_ok, fits) = save_unlocked-ok io (s.chain ++ b ∷ []) s.disk saved' in
        (prev, x, io_ok, fits, (add_block_appends prev x io_ok fits).1)

    Appended-IsValidStore :
        now ≤ horizon
        → (t : Store) (prev : Block) → Extends now b prev s
        → Appended b s t
        → IsValidStore horizon t
    Appended-IsValidStore le t prev x a = record {
      ledger =
          rw (a.difficulty, a.chain)
            (Extends-IsLedgerChain horizon b prev s s.chain refl v.ledger v.indexed
              (Extends-later le x));
      indexed = λ k.
          rw (a.chain, chain_ids-append s.chain (b ∷ []), append-nil (ids b))
            (ground (arith, a.indexed k, v.indexed k, has-append (chain_ids s.chain) (ids b) k));
    }

pub SameLedger-IsValidStore :
    (now : ℕ) (s t : Store) → SameLedger s t → IsValidStore now s → IsValidStore now t
SameLedger-IsValidStore now s t e v = record {
  ledger = rw (e.difficulty, e.chain) v.ledger;
  indexed = λ k. rw (e.tx_ids, e.chain) (v.indexed k);
}

-- `AddBlock` keeps the store's invariant, whatever block it is given and whichever call fails.
-- The `horizon` is a time that the clock reading `now` has not passed.
pub add_block-IsValidStore :
    {horizon : ℕ} (now : ℕ) (io : Faults) (b : Block) (s : Store)
    → now ≤ horizon
    → IsValidStore horizon s
    → IsValidStore horizon (add_block now io b s).1
add_block-IsValidStore {horizon} now io b s le v = elim (Result-cases (add_block now io b s).0) [
  | inl (_, h) ↦
      let (prev, x, _, _, a) = add_block-ok now io b s v h in
      Appended-IsValidStore now io b s v le (add_block now io b s).1 prev x a
  | inr (e, h) ↦
      SameLedger-IsValidStore horizon s (add_block now io b s).1 (add_block_failed now io b s e h) v
]
