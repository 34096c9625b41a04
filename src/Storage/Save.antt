-- ===== src/Storage/Save.antt =====
-- `saveUnlocked`: what it does to the directory.
use distributed_p2p_ledger.Base.{
  ◌≤◌, ◌≡◌, ◌⊎◌, true, List, [], Bytes, length, arith, All, Option, some, none, ok, err, Error,
}
use distributed_p2p_ledger.Models.Block.{Block}
use distributed_p2p_ledger.Models.Chain.{encode_chain}
use distributed_p2p_ledger.Storage.ChainFile.{Disk, Faults, save_unlocked, max_chain_bytes}

-- All calls succeed.
pub record AllSucceed (io : Faults) : Type 0 where
  pub create : io.create ≡ true
  pub write : io.write ≡ true
  pub sync : io.sync ≡ true
  pub close : io.close ≡ true
  pub rename : io.rename ≡ true

module _ (io : Faults) (chain : List Block) (d : Disk) where
  -- The save succeeds exactly if the chain fits and every call does.
  pub save_unlocked-ok :
      (save_unlocked io chain d).0 ≡ ok tt
      → AllSucceed io × (length (encode_chain chain) ≤ max_chain_bytes)
  unfolding save_unlocked
  save_unlocked-ok h = (
    record {
      create = ground arith;
      write = ground arith;
      sync = ground arith;
      close = ground arith;
      rename = ground arith;
    },
    ground arith,
  )

  pub save_unlocked_succeeds :
      AllSucceed io
      → length (encode_chain chain) ≤ max_chain_bytes
      → (save_unlocked io chain d).0 ≡ ok tt
  unfolding save_unlocked
  save_unlocked_succeeds a h = ground (arith, a.create, a.write, a.sync, a.close, a.rename)

  -- What the chain file holds afterwards.
  pub file-save_unlocked :
      (save_unlocked io chain d).0 ≡ ok tt
      → (save_unlocked io chain d).1.file ≡ some (encode_chain chain)
  unfolding save_unlocked
  file-save_unlocked h = ground arith

  pub file-save_unlocked_failed :
      (e : Error)
      → (save_unlocked io chain d).0 ≡ err e
      → (save_unlocked io chain d).1.file ≡ d.file
  unfolding save_unlocked
  file-save_unlocked_failed e h = ground arith

  -- Whether the save succeeds or fails, no temporary file stays behind.
  pub temp-save_unlocked : d.temp ≡ none → (save_unlocked io chain d).1.temp ≡ none
  unfolding save_unlocked
  temp-save_unlocked h = ground arith

  -- After each call of a save that changes the directory, also in a save that fails, the chain
  -- file holds what it held before or the whole JSON of the new chain.
  pub save_unlocked_atomic :
      All
        (λ (f : Option Bytes). (f ≡ d.file) ⊎ (f ≡ some (encode_chain chain)))
        (save_unlocked io chain (record d { seen = [] })).1.seen
  unfolding save_unlocked
  save_unlocked_atomic = ground arith
