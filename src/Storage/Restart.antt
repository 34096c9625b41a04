-- ===== src/Storage/Restart.antt =====
-- Starts and restarts of a node: `NewFileChainStorage` on the file that a store saved.
use distributed_p2p_ledger.Base.{
  ℕ, ◌≤◌, ◌<◌, ◌≡◌, refl, sym, ap, ◌∙◌, true, not, ◌||◌, List, [], ◌∷◌, Bytes, length, arith,
  Option, none, some, has, has-nil, ℤ, ok, err, Error, >>=-eq-ok, wrap-ok, reject, wrap, ltb, ◌==◌,
  invalid_chain_file, io_failure, load_chain, trailing_data, ◌||◌,
}
use distributed_p2p_ledger.Json.{encode_list}
use distributed_p2p_ledger.Models.Block.{Block, create_genesis_block, difficulty_of}
use distributed_p2p_ledger.Models.Block.Validity.{IsDifficulty, check_difficulty_iff}
use distributed_p2p_ledger.Models.Chain.{encode_chain, validate_chain, chain_ids}
use distributed_p2p_ledger.Storage.{Store, index_transactions}
use distributed_p2p_ledger.Storage.ChainFile.{Disk, max_chain_bytes, save_unlocked}
use distributed_p2p_ledger.Storage.Start.{
  Decoder, StartFaults, load, initialize, opened, open_file, new_file_chain_storage,
}
use distributed_p2p_ledger.Storage.Invariant.{
  IsLedgerChain, IsLedgerChain-later, IsValidStore, IsSaved, has-index_from,
}
use distributed_p2p_ledger.Storage.Replace.{
  validate_chain-IsLedgerChain, IsLedgerChain-validate_chain,
}

pub IsLedgerChain-IsDifficulty :
    (now : ℕ) (d : ℤ) (chain : List Block) → IsLedgerChain now d chain → IsDifficulty d
IsLedgerChain-IsDifficulty now d [] l = absurd l
IsLedgerChain-IsDifficulty now d (first ∷ rest) l = l.difficulty_range

-- What `load` accepts: a ledger that the decoder found in the file.
load-ok :
    (now : ℕ) (json : Decoder) (d : ℤ) (io : StartFaults) (raw : Bytes) {chain : List Block}
    → load now json d io raw ≡ ok chain
    → (json.decode raw ≡ ok chain) × IsLedgerChain now d chain
unfolding load
load-ok now json d io raw {chain} h =
    let (_, size, h₁) =
      >>=-eq-ok (reject (length raw == 0 || ltb max_chain_bytes (length raw)) invalid_chain_file) _
        h in
    let (_, read, h₂) = >>=-eq-ok (reject (not io.read) io_failure) _ h₁ in
    let (c, decoded, h₃) = >>=-eq-ok (wrap load_chain (json.decode raw)) _ h₂ in
    let (_, at_end, h₄) = >>=-eq-ok (reject (not (json.at_end raw)) trailing_data) _ h₃ in
    let (_, valid, h₅) = >>=-eq-ok (wrap load_chain (validate_chain now c d)) _ h₄ in
    let same : c ≡ chain = ground arith in
    (
      wrap-ok load_chain (json.decode raw) decoded ∙ ap ok same,
      rw (← same) (
          validate_chain-IsLedgerChain now d c (wrap-ok load_chain (validate_chain now c d) valid)),
    )

-- The index that startup builds is that of the chain.
pub index_transactions-IsValidStore :
    (now : ℕ) (s : Store)
    → IsLedgerChain now s.difficulty s.chain
    → IsValidStore now (index_transactions s)
unfolding index_transactions
index_transactions-IsValidStore now s l = record {
  ledger = l;
  indexed = λ k. ground (arith, has-index_from [] s.chain k, has-nil k);
}

pub chain-index_transactions : (s : Store) → (index_transactions s).chain ≡ s.chain
unfolding index_transactions
chain-index_transactions s = refl

pub difficulty-index_transactions : (s : Store) → (index_transactions s).difficulty ≡ s.difficulty
unfolding index_transactions
difficulty-index_transactions s = refl

genesis_ledger :
    (now : ℕ) (d : ℤ) → IsDifficulty d → IsLedgerChain now d (create_genesis_block (d ∷ []) ∷ [])
genesis_ledger now d range = record {
  difficulty_range = range;
  short = omega arith;
  genesis = refl;
  linked = tt;
  distinct_ids = tt;
}

initialize-IsValidStore :
    (now : ℕ) (d : ℤ) (io : StartFaults) (disk : Disk) {s : Store}
    → IsDifficulty d
    → (initialize d io disk).0 ≡ ok s
    → IsValidStore now s
unfolding initialize
initialize-IsValidStore now d io disk {s} range h =
    let chain = create_genesis_block (d ∷ []) ∷ [] in
    let e : index_transactions (opened chain d (save_unlocked io.save chain disk).1) ≡ s =
      ground arith in
    rw (← e) (
      index_transactions-IsValidStore now (opened chain d (save_unlocked io.save chain disk).1)
        (genesis_ledger now d range))

open_file-IsValidStore :
    (now : ℕ) (json : Decoder) (d : ℤ) (io : StartFaults) (disk : Disk) (file : Option Bytes)
    {s : Store}
    → IsDifficulty d
    → (open_file now json d io disk file).0 ≡ ok s
    → IsValidStore now s
unfolding open_file
open_file-IsValidStore now json d io disk none range h =
    initialize-IsValidStore now d io disk range h
open_file-IsValidStore now json d io disk (some raw) {s} range h =
    let (chain, loaded, e) = >>=-eq-ok (load now json d io raw) _ h in
    let e' : index_transactions (opened chain d disk) ≡ s = ground arith in
    rw (← e') (
      index_transactions-IsValidStore now (opened chain d disk)
        (load-ok now json d io raw loaded).1)

-- Whatever the chain file holds and the decoder reads, a store that `NewFileChainStorage` returns
-- satisfies the store's invariant.
pub start-IsValidStore :
    (now : ℕ) (json : Decoder) (ds : List ℤ) (io : StartFaults) (disk : Disk) {s : Store}
    → (new_file_chain_storage now json ds io disk).0 ≡ ok s
    → IsValidStore now s
unfolding new_file_chain_storage
start-IsValidStore now json ds io disk h =
    open_file-IsValidStore now json (difficulty_of ds) io disk disk.file
      ((check_difficulty_iff (difficulty_of ds)).0 (ground arith)) (ground arith)

-- A start that fails leaves the chain file as it was.
pub start_failed :
    (now : ℕ) (json : Decoder) (ds : List ℤ) (io : StartFaults) (disk : Disk) (raw : Bytes)
    (e : Error)
    → disk.file ≡ some raw
    → (new_file_chain_storage now json ds io disk).0 ≡ err e
    → (new_file_chain_storage now json ds io disk).1 ≡ disk
unfolding new_file_chain_storage open_file
start_failed now json ds io disk raw e there h = ground arith

length-encode_chain : (first : Block) (rest : List Block) → 0 < length (encode_chain (first ∷ rest))
unfolding encode_chain encode_list
length-encode_chain first rest = omega arith

pub saved_not_empty :
    (now : ℕ) (d : ℤ) (chain : List Block)
    → IsLedgerChain now d chain
    → 0 < length (encode_chain chain)
saved_not_empty now d [] l = absurd l
saved_not_empty now d (first ∷ rest) l = length-encode_chain first rest

-- The decoder reads back the JSON of this chain.
pub record ReadsBack (json : Decoder) (chain : List Block) : Type 0 where
  pub decode : json.decode (encode_chain chain) ≡ ok chain
  pub at_end : json.at_end (encode_chain chain) ≡ true

module _ (now later : ℕ) (json : Decoder) (io : StartFaults) (s : Store) where
  load_saved :
      now ≤ later
      → IsValidStore now s
      → IsSaved s
      → ReadsBack json s.chain
      → io.read ≡ true
      → load later json s.difficulty io (encode_chain s.chain) ≡ ok s.chain
  unfolding load
  load_saved h v w r read =
      let valid =
        IsLedgerChain-validate_chain later s.difficulty s.chain
          (IsLedgerChain-later now later s.difficulty s.chain h v.ledger) in
      let size = saved_not_empty now s.difficulty s.chain v.ledger in
      ground (arith, w.fits, read, r.decode, r.at_end)

  -- A store that satisfies its invariant and is saved, started again at a later time with the
  -- same difficulty, where the decoder reads back the JSON of its chain and os.Stat and
  -- os.ReadFile succeed, has the same chain and difficulty and the same transactions in its
  -- index, and the disk is not changed.
  pub restart :
      now ≤ later
      → IsValidStore now s
      → IsSaved s
      → ReadsBack json s.chain
      → io.stat ≡ true
      → io.read ≡ true
      → (t : Store) × (new_file_chain_storage later json (s.difficulty ∷ []) io s.disk
          ≡ (ok t, s.disk))
        × (t.chain ≡ s.chain)
        × (t.difficulty ≡ s.difficulty)
        × ((k : Bytes) → has t.tx_ids k ≡ has s.tx_ids k)
  unfolding new_file_chain_storage open_file
  restart h v w r stat read =
      let range =
        (check_difficulty_iff s.difficulty).1
          (IsLedgerChain-IsDifficulty now s.difficulty s.chain v.ledger) in
      let t = index_transactions (opened s.chain s.difficulty s.disk) in
      let valid =
        index_transactions-IsValidStore now (opened s.chain s.difficulty s.disk) v.ledger in
      (
        t,
        ground (arith, range, stat, w.file, load_saved h v w r read),
        chain-index_transactions (opened s.chain s.difficulty s.disk),
        difficulty-index_transactions (opened s.chain s.difficulty s.disk),
        λ k.
            valid.indexed k
            ∙ ap (λ (c : List Block). has (chain_ids c) k)
                (chain-index_transactions (opened s.chain s.difficulty s.disk))
            ∙ sym (v.indexed k),
      )
