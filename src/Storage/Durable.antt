-- ===== src/Storage/Durable.antt =====
-- What the chain file is good for: a store that can be read again, through all that happens to it.
use distributed_p2p_ledger.Base.{
  ℕ, ◌≤◌, ◌<◌, ◌≡◌, refl, sym, ap, ◌∙◌, inl, inr, ◌⊎◌, true, not, ◌||◌, List, [], ◌∷◌, Bytes,
  length, arith, Option, none, some, ℤ, Result-cases, ok, >>=-eq-ok, wrap-ok, reject, wrap, ltb,
  ◌==◌, invalid_chain_file, io_failure, load_chain, trailing_data,
}
use distributed_p2p_ledger.Models.Block.{Block, create_genesis_block, difficulty_of}
use distributed_p2p_ledger.Models.Block.Validity.{check_difficulty_iff}
use distributed_p2p_ledger.Models.Chain.{encode_chain, validate_chain}
use distributed_p2p_ledger.Storage.{Store, add_block, replace_chain, index_transactions}
use distributed_p2p_ledger.Storage.ChainFile.{Disk, Faults, max_chain_bytes, save_unlocked}
use distributed_p2p_ledger.Storage.Save.{save_unlocked-ok, file-save_unlocked}
use distributed_p2p_ledger.Storage.Start.{
  Decoder, StartFaults, load, initialize, opened, open_file, new_file_chain_storage,
}
use distributed_p2p_ledger.Storage.Invariant.{IsLedgerChain-later, IsValidStore, IsSaved}
use distributed_p2p_ledger.Storage.Append.{
  SameLedger, add_block-ok, add_block_failed, add_block-IsValidStore,
}
use distributed_p2p_ledger.Storage.Replace.{
  IsLedgerChain-validate_chain, replace_chain-ok, replace_chain_failed, replace_chain-IsValidStore,
  Replaced,
}
use distributed_p2p_ledger.Storage.Restart.{
  saved_not_empty, ReadsBack, chain-index_transactions, IsLedgerChain-IsDifficulty,
  start-IsValidStore,
}

-- The store has this difficulty; its file is there and of a size that a start takes, and it is either what the decoder read the chain
-- from, or the JSON of the chain.
pub record IsStored (json : Decoder) (d : ℤ) (s : Store) : Type 0 where
  pub difficulty : s.difficulty ≡ d
  pub raw : Bytes
  pub file : s.disk.file ≡ some raw
  pub some_bytes : 0 < length raw
  pub fits : length raw ≤ max_chain_bytes
  pub source :
      ((json.decode raw ≡ ok s.chain) × (json.at_end raw ≡ true)) ⊎ (raw ≡ encode_chain s.chain)

module _ (json : Decoder) where
  Saved-IsStored :
      {now : ℕ} {d : ℤ} (s : Store)
      → s.difficulty ≡ d
      → IsValidStore now s
      → IsSaved s
      → IsStored json d s
  Saved-IsStored {now} {d} s e v w = record {
    difficulty = e;
    raw = encode_chain s.chain;
    file = w.file;
    some_bytes = saved_not_empty now s.difficulty s.chain v.ledger;
    fits = w.fits;
    source = inr refl;
  }

  SameLedger-IsStored :
      {d : ℤ} (s t : Store) → SameLedger s t → IsStored json d s → IsStored json d t
  SameLedger-IsStored s t e w = record {
    difficulty = e.difficulty ∙ w.difficulty;
    raw = w.raw;
    file = e.file ∙ w.file;
    some_bytes = w.some_bytes;
    fits = w.fits;
    source = rw e.chain w.source;
  }

  module _ {horizon : ℕ} {d : ℤ} (now : ℕ) (io : Faults) (s : Store) (le : now ≤ horizon)
      (v : IsValidStore horizon s) (w : IsStored json d s) where
    pub add_block-IsStored : (b : Block) → IsStored json d (add_block now io b s).1
    add_block-IsStored b = elim (Result-cases (add_block now io b s).0) [
      | inl (_, h) ↦
          let (_, _, _, fits, a) = add_block-ok now io b s v h in
          Saved-IsStored (add_block now io b s).1 (a.difficulty ∙ w.difficulty)
            (add_block-IsValidStore now io b s le v)
            (record {
              file = a.file ∙ ap (λ (c : List Block). some (encode_chain c)) (sym a.chain);
              fits = rw a.chain fits;
            })
      | inr (e, h) ↦
          SameLedger-IsStored s (add_block now io b s).1 (add_block_failed now io b s e h) w
    ]

    pub replace_chain-IsStored :
        (chain : List Block) → IsStored json d (replace_chain now io chain s).1
    replace_chain-IsStored chain = elim (Result-cases (replace_chain now io chain s).0) [
      | inl (_, h) ↦
          let (_, _, _, fits, r) = replace_chain-ok now io chain s h in
          Saved-IsStored (replace_chain now io chain s).1 (Replaced.difficulty r ∙ w.difficulty)
            (replace_chain-IsValidStore now io chain s le v)
            (record {
              file =
                  r.file ∙ ap (λ (c : List Block). some (encode_chain c)) (sym (Replaced.chain r));
              fits = rw (Replaced.chain r) fits;
            })
      | inr (e, h) ↦
          SameLedger-IsStored s (replace_chain now io chain s).1
            (replace_chain_failed now io chain s e h) w
    ]

  stored_reads :
      {d : ℤ} {s : Store} (w : IsStored json d s)
      → ReadsBack json s.chain
      → (json.decode w.raw ≡ ok s.chain) × (json.at_end w.raw ≡ true)
  stored_reads {s} w r = elim w.source [
    | inl read ↦ read
    | inr same ↦ (ap json.decode same ∙ r.decode, ap json.at_end same ∙ r.at_end)
  ]

  load_read :
      (now : ℕ) (d : ℤ) (io : StartFaults) (raw : Bytes) {chain : List Block}
      → load now json d io raw ≡ ok chain
      → (0 < length raw)
        × (length raw ≤ max_chain_bytes)
        × (json.decode raw ≡ ok chain)
        × (json.at_end raw ≡ true)
  unfolding load
  load_read now d io raw {chain} h =
      let (_, size, h₁) =
        >>=-eq-ok (reject (length raw == 0 || ltb max_chain_bytes (length raw)) invalid_chain_file)
          _ h in
      let (_, read, h₂) = >>=-eq-ok (reject (not io.read) io_failure) _ h₁ in
      let (c, decoded, h₃) = >>=-eq-ok (wrap load_chain (json.decode raw)) _ h₂ in
      let (_, at_end, h₄) = >>=-eq-ok (reject (not (json.at_end raw)) trailing_data) _ h₃ in
      let (_, valid, h₅) = >>=-eq-ok (wrap load_chain (validate_chain now c d)) _ h₄ in
      let same : c ≡ chain = ground arith in
      (
        ground arith,
        ground arith,
        wrap-ok load_chain (json.decode raw) decoded ∙ ap ok same,
        ground arith,
      )

  open_file-IsStored :
      (now : ℕ) (d : ℤ) (io : StartFaults) (disk : Disk) (file : Option Bytes) {s : Store}
      → disk.file ≡ file
      → IsValidStore now s
      → (open_file now json d io disk file).0 ≡ ok s
      → IsStored json d s
  unfolding open_file initialize index_transactions
  open_file-IsStored now d io disk none {s} e v h =
      let chain = create_genesis_block (d ∷ []) ∷ [] in
      let made = opened chain d (save_unlocked io.save chain disk).1 in
      let same : index_transactions made ≡ s = ground arith in
      let saved : (save_unlocked io.save chain disk).0 ≡ ok tt = ground arith in
      let (_, fits) = save_unlocked-ok io.save chain disk saved in
      Saved-IsStored s (ap (λ x. x.difficulty) (sym same)) v
        (rw (← same) (record { file = file-save_unlocked io.save chain disk saved; fits = fits }))
  open_file-IsStored now d io disk (some raw) {s} e v h =
      let (chain, loaded, e') = >>=-eq-ok (load now json d io raw) _ h in
      let same : index_transactions (opened chain d disk) ≡ s = ground arith in
      let (some_bytes, fits, decoded, at_end) = load_read now d io raw loaded in
      rw (← same) (record {
        difficulty = refl;
        raw = raw;
        file = e;
        some_bytes = some_bytes;
        fits = fits;
        source = inl (decoded, at_end);
      })

  pub start-IsStored :
      (now : ℕ) (ds : List ℤ) (io : StartFaults) (disk : Disk) {s : Store}
      → (new_file_chain_storage now json ds io disk).0 ≡ ok s
      → IsStored json (difficulty_of ds) s
  unfolding new_file_chain_storage
  start-IsStored now ds io disk h =
      open_file-IsStored now (difficulty_of ds) io disk disk.file refl
        (start-IsValidStore now json ds io disk h) (ground arith)

  module _ (now later : ℕ) {d : ℤ} (io : StartFaults) (s : Store) where
    load_stored :
        now ≤ later
        → IsValidStore now s
        → (w : IsStored json d s) → ReadsBack json s.chain
        → io.read ≡ true
        → load later json s.difficulty io w.raw ≡ ok s.chain
    unfolding load
    load_stored h v w r read =
        let valid =
          IsLedgerChain-validate_chain later s.difficulty s.chain
            (IsLedgerChain-later now later s.difficulty s.chain h v.ledger) in
        let (decoded, at_end) = stored_reads w r in
        ground (arith, w.some_bytes, w.fits, read, decoded, at_end, valid)

    reload_same :
        now ≤ later
        → IsValidStore now s
        → IsStored json d s
        → ReadsBack json s.chain
        → io.stat ≡ true
        → io.read ≡ true
        → (t : Store) × (new_file_chain_storage later json (s.difficulty ∷ []) io s.disk
            ≡ (ok t, s.disk))
          × (t.chain ≡ s.chain)
    unfolding new_file_chain_storage open_file
    reload_same h v w r stat read =
        let range =
          (check_difficulty_iff s.difficulty).1
            (IsLedgerChain-IsDifficulty now s.difficulty s.chain v.ledger) in
        let t = index_transactions (opened s.chain s.difficulty s.disk) in
        (
          t,
          ground (arith, range, stat, w.file, load_stored h v w r read),
          chain-index_transactions (opened s.chain s.difficulty s.disk),
        )

    -- A store that is stored is found again.
    pub reload :
        now ≤ later
        → IsValidStore now s
        → IsStored json d s
        → ReadsBack json s.chain
        → io.stat ≡ true
        → io.read ≡ true
        → (t : Store) × (new_file_chain_storage later json (d ∷ []) io s.disk ≡ (ok t, s.disk))
          × (t.chain ≡ s.chain)
    reload h v w r stat read = rw (← w.difficulty) (reload_same h v w r stat read)
