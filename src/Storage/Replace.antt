-- ===== src/Storage/Replace.antt =====
-- `ReplaceChain`, and the progress of the stored chain.
use distributed_p2p_ledger.Base.{
  ℕ, ◌≤◌, ◌≡◌, ◌∙◌, ◌⊎◌, inl, inr, true, List, [], ◌∷◌, ◌++◌, Bytes, length, length-append, arith,
  some, has, has-nil, ℤ, Result-cases, ok, err, Error,
}
use distributed_p2p_ledger.Models.Block.{Block}
use distributed_p2p_ledger.Models.Chain.{encode_chain, validate_chain, better_chain, chain_ids}
use distributed_p2p_ledger.Models.Chain.Validity.{validate_chain_iff, validate_chain-cons}
use distributed_p2p_ledger.Storage.{
  Store, clone_chain, index_transactions, check_replace, commit_replace, replace_chain, add_block,
}
use distributed_p2p_ledger.Storage.ChainFile.{Faults, save_unlocked, max_chain_bytes}
use distributed_p2p_ledger.Storage.Save.{
  AllSucceed, save_unlocked-ok, save_unlocked_succeeds, file-save_unlocked,
  file-save_unlocked_failed,
}
use distributed_p2p_ledger.Storage.Invariant.{
  IsLedgerChain, IsLedgerChain-later, IsValidStore, has-index_from,
}
use distributed_p2p_ledger.Storage.Append.{
  SameLedger, SameLedger-IsValidStore, Appended, add_block-ok, add_block_failed,
}
use distributed_p2p_ledger.Models.Chain.Choice.{longer-better_chain, better_chain_trans}

pub validate_chain-IsLedgerChain :
    (now : ℕ) (d : ℤ) (chain : List Block)
    → validate_chain now chain d ≡ ok tt
    → IsLedgerChain now d chain
validate_chain-IsLedgerChain now d [] h =
    let (_, _, e) = validate_chain-cons now [] d h in absurd (ground arith)
validate_chain-IsLedgerChain now d (first ∷ rest) h = (validate_chain_iff now d first rest).0 h

pub IsLedgerChain-validate_chain :
    (now : ℕ) (d : ℤ) (chain : List Block)
    → IsLedgerChain now d chain
    → validate_chain now chain d ≡ ok tt
IsLedgerChain-validate_chain now d [] l = absurd l
IsLedgerChain-validate_chain now d (first ∷ rest) l = (validate_chain_iff now d first rest).1 l

-- The new chain is in memory and in the file, and its transactions are the index.
pub record Replaced (candidate : List Block) (s t : Store) : Type 0 where
  pub chain : t.chain ≡ candidate
  pub indexed : (k : Bytes) → has t.tx_ids k ≡ has (chain_ids candidate) k
  pub difficulty : t.difficulty ≡ s.difficulty
  pub file : t.disk.file ≡ some (encode_chain candidate)

module _ (io : Faults) (candidate : List Block) (s : Store) where
  commit_replace_failed :
      (e : Error)
      → (commit_replace io candidate s).0 ≡ err e
      → SameLedger s (commit_replace io candidate s).1
  unfolding commit_replace
  commit_replace_failed e h = record {
    chain = ground arith;
    tx_ids = ground arith;
    difficulty = ground arith;
    file = ground (arith, file-save_unlocked_failed io candidate s.disk e);
  }

  commit_replace_saved :
      (commit_replace io candidate s).0 ≡ ok tt → (save_unlocked io candidate s.disk).0 ≡ ok tt
  unfolding commit_replace
  commit_replace_saved h = ground arith

  commit_replace_done :
      (save_unlocked io candidate s.disk).0 ≡ ok tt
      → ((commit_replace io candidate s).0 ≡ ok tt)
        × Replaced candidate s (commit_replace io candidate s).1
  unfolding commit_replace index_transactions
  commit_replace_done saved = (
    ground arith,
    record {
      chain = ground arith;
      indexed = λ k. ground (arith, has-index_from [] candidate k, has-nil k);
      difficulty = ground arith;
      file = ground (arith, file-save_unlocked io candidate s.disk);
    },
  )

module _ (now : ℕ) (io : Faults) (chain : List Block) (s : Store) where
  -- A chain that is refused, or cannot be saved, leaves the ledger as it was.
  pub replace_chain_failed :
      (e : Error)
      → (replace_chain now io chain s).0 ≡ err e
      → SameLedger s (replace_chain now io chain s).1
  unfolding replace_chain
  replace_chain_failed e h = ground (arith, commit_replace_failed io (clone_chain chain) s e)

  replace_chain_checked :
      (replace_chain now io chain s).0 ≡ ok tt
      → (check_replace now (clone_chain chain) s ≡ ok tt)
        × ((save_unlocked io (clone_chain chain) s.disk).0 ≡ ok tt)
  unfolding replace_chain
  replace_chain_checked h = ground (arith, commit_replace_saved io (clone_chain chain) s)

  check_replace-ok :
      check_replace now (clone_chain chain) s ≡ ok tt
      → IsLedgerChain now s.difficulty (clone_chain chain)
        × (better_chain (clone_chain chain) s.chain ≡ true)
  unfolding check_replace
  check_replace-ok h = (
    validate_chain-IsLedgerChain now s.difficulty (clone_chain chain) (ground arith),
    ground arith,
  )

  -- A chain that `ReplaceChain` accepts: its copy is a ledger and preferred to the live chain,
  -- all calls of the save succeeded, the copy fits into the file, and it is stored, indexed and
  -- saved.
  pub replace_chain-ok :
      (replace_chain now io chain s).0 ≡ ok tt
      → IsLedgerChain now s.difficulty (clone_chain chain)
        × (better_chain (clone_chain chain) s.chain ≡ true)
        × AllSucceed io
        × (length (encode_chain (clone_chain chain)) ≤ max_chain_bytes)
        × Replaced (clone_chain chain) s (replace_chain now io chain s).1
  unfolding replace_chain
  replace_chain-ok h =
      let (checked, saved) = replace_chain_checked h in
      let (ledger, better) = check_replace-ok checked in
      let (io_ok, fits) = save_unlocked-ok io (clone_chain chain) s.disk saved in
      (
        ledger,
        better,
        io_ok,
        fits,
        rw (checked, replace_chain) (commit_replace_done io (clone_chain chain) s saved).1,
      )

  -- A chain whose copy is a ledger and preferred to the live chain replaces it, if it can be saved.
  pub replace_chain_replaces :
      IsLedgerChain now s.difficulty (clone_chain chain)
      → better_chain (clone_chain chain) s.chain ≡ true
      → AllSucceed io
      → length (encode_chain (clone_chain chain)) ≤ max_chain_bytes
      → (replace_chain now io chain s).0 ≡ ok tt
  unfolding replace_chain check_replace
  replace_chain_replaces ledger better io_ok fits =
      let valid = IsLedgerChain-validate_chain now s.difficulty (clone_chain chain) ledger in
      let saved = save_unlocked_succeeds io (clone_chain chain) s.disk io_ok fits in
      ground (arith, valid, better, (commit_replace_done io (clone_chain chain) s saved).0)

-- `ReplaceChain` keeps the store's invariant, whatever chain it is given and whichever call
-- fails. The `horizon` is a time that the clock reading `now` has not passed.
pub replace_chain-IsValidStore :
    {horizon : ℕ} (now : ℕ) (io : Faults) (chain : List Block) (s : Store)
    → now ≤ horizon
    → IsValidStore horizon s
    → IsValidStore horizon (replace_chain now io chain s).1
replace_chain-IsValidStore {horizon} now io chain s le v =
    elim (Result-cases (replace_chain now io chain s).0) [
      | inl (_, h) ↦
          let (ledger, _, _, _, r) = replace_chain-ok now io chain s h in
          record {
            ledger =
                rw (r.difficulty, r.chain)
                  (IsLedgerChain-later now horizon s.difficulty (clone_chain chain) le ledger);
            indexed = λ k. rw r.chain (r.indexed k);
          }
      | inr (e, h) ↦
          SameLedger-IsValidStore horizon s (replace_chain now io chain s).1
            (replace_chain_failed now io chain s e h) v
    ]

-- The stored chain only moves to a preferred one: it is the same, or better than before.
abbrev pub Progresses : List Block → List Block → Type 0
Progresses old new_chain = (new_chain ≡ old) ⊎ (better_chain new_chain old ≡ true)

pub replace_chain-Progresses :
    (now : ℕ) (io : Faults) (chain : List Block) (s : Store)
    → Progresses s.chain (replace_chain now io chain s).1.chain
replace_chain-Progresses now io chain s = elim (Result-cases (replace_chain now io chain s).0) [
  | inl (_, h) ↦
      let (_, better, _, _, r) = replace_chain-ok now io chain s h in inr (rw r.chain better)
  | inr (e, h) ↦ inl (SameLedger.chain (replace_chain_failed now io chain s e h))
]

pub add_block-Progresses :
    {horizon : ℕ} (now : ℕ) (io : Faults) (b : Block) (s : Store)
    → IsValidStore horizon s
    → Progresses s.chain (add_block now io b s).1.chain
add_block-Progresses now io b s v = elim (Result-cases (add_block now io b s).0) [
  | inl (_, h) ↦
      let (_, _, _, _, a) = add_block-ok now io b s v h in
      inr (
        rw (Appended.chain a) (
          longer-better_chain (s.chain ++ b ∷ []) s.chain
            (omega (arith, length-append s.chain (b ∷ [])))))
  | inr (e, h) ↦ inl (SameLedger.chain (add_block_failed now io b s e h))
]

pub Progresses-trans : (a b c : List Block) → Progresses a b → Progresses b c → Progresses a c
Progresses-trans a b c (inl e) (inl e') = inl (e' ∙ e)
Progresses-trans a b c (inl e) (inr h) = inr (rw (← e) h)
Progresses-trans a b c (inr h) (inl e) = inr (rw e h)
Progresses-trans a b c (inr h) (inr h') = inr (better_chain_trans c b a h' h)
