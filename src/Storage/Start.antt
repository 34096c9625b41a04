-- ===== src/Storage/Start.antt =====
-- `NewFileChainStorage`: a fresh chain is made and saved, an existing file is read and validated. The
-- JSON decoder is a parameter, and so is what the package os answers.
use distributed_p2p_ledger.Base.{
  ℕ, Bool, not, ◌||◌, List, [], ◌∷◌, Bytes, length, ltb, ◌==◌, if◌then◌else◌, Option, none, some, ℤ,
  Result, ok, err, ◌>>=◌, ◌>>◌, reject, wrap, invalid_chain_file, io_failure, load_chain,
  trailing_data,
}
use distributed_p2p_ledger.Models.Block.{
  Block, check_difficulty, difficulty_of, create_genesis_block,
}
use distributed_p2p_ledger.Models.Chain.{validate_chain}
use distributed_p2p_ledger.Storage.{Store, index_transactions}
use distributed_p2p_ledger.Storage.ChainFile.{Disk, Faults, save_unlocked, max_chain_bytes}

-- json.NewDecoder with DisallowUnknownFields: `decode` is the first call of Decode, into a chain, and
-- `at_end` tells whether a second call returns io.EOF.
pub record Decoder : Type 0 where
  pub decode : Bytes → Result (List Block)
  pub at_end : Bytes → Bool

-- Which of os.Stat, os.ReadFile and os.MkdirAll succeed, apart from reporting a missing file.
pub record StartFaults : Type 0 where
  pub stat : Bool
  pub read : Bool
  pub mkdir : Bool
  pub save : Faults

-- The branch for a file that is there.
unfoldable pub load : ℕ → Decoder → ℤ → StartFaults → Bytes → Result (List Block)
load now json d io raw = do
  reject (length raw == 0 || ltb max_chain_bytes (length raw)) invalid_chain_file
  reject (not io.read) io_failure
  chain ← wrap load_chain (json.decode raw)
  reject (not (json.at_end raw)) trailing_data
  wrap load_chain (validate_chain now chain d)
  ok chain

abbrev pub opened : List Block → ℤ → Disk → Store
opened chain d disk = record { chain = chain; tx_ids = []; difficulty = d; disk = disk }

-- The branch for a missing file: the genesis block is saved.
unfoldable pub initialize : ℤ → StartFaults → Disk → Result Store × Disk
initialize d io disk =
    let chain = create_genesis_block (d ∷ []) ∷ [] in
    let (saved, disk') = save_unlocked io.save chain disk in
    if not io.mkdir then (err io_failure, disk) else elim saved [
      | err e ↦ (err e, disk')
      | ok _ ↦ (ok (index_transactions (opened chain d disk')), disk')
    ]

unfoldable pub open_file : ℕ → Decoder → ℤ → StartFaults → Disk → Option Bytes → Result Store × Disk
open_file now json d io disk none = initialize d io disk
open_file now json d io disk (some raw) =
    (do chain ← load now json d io raw; ok (index_transactions (opened chain d disk)), disk)

unfoldable pub new_file_chain_storage :
    ℕ → Decoder → List ℤ → StartFaults → Disk → Result Store × Disk
new_file_chain_storage now json ds io disk =
    let d = difficulty_of ds in
    elim (do check_difficulty d; reject (not io.stat) io_failure) [
      | err e ↦ (err e, disk)
      | ok _ ↦ open_file now json d io disk disk.file
    ]
