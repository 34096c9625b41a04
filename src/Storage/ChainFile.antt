-- ===== src/Storage/ChainFile.antt =====
-- The chain file, and `saveUnlocked`: a temporary file that is written, synced and renamed. What each
-- call of the package os returns is an argument; `seen` records, for a crash, what the chain file held
-- after each call that changed the directory.
use distributed_p2p_ledger.Base.{
  ℕ, ◌*◌, ◌^◌, Bool, not, List, [], ◌∷◌, Bytes, length, ltb, if◌then◌else◌, take, Option, none,
  some, Result, ok, err, chain_too_large, io_failure,
}
use distributed_p2p_ledger.Models.Block.{Block}
use distributed_p2p_ledger.Models.Chain.{encode_chain}

-- 64 << 20
abbrev pub max_chain_bytes : ℕ
max_chain_bytes = 64 * 2 ^ 20

pub record Disk : Type 0 where
  -- the chain file and the temporary file, if they are there
  pub file : Option Bytes
  pub temp : Option Bytes
  pub seen : List (Option Bytes)

-- Which calls succeed; a failing write leaves `written` bytes in the temporary file.
pub record Faults : Type 0 where
  pub create : Bool
  pub write : Bool
  pub written : ℕ
  pub sync : Bool
  pub close : Bool
  pub rename : Bool

record_file : Disk → Disk
record_file d = record d { seen = d.file ∷ d.seen }

-- The temporary file holds `raw`: os.CreateTemp makes it, and f.Write fills it.
write_temp : Bytes → Disk → Disk
unfolding record_file
write_temp raw d = record_file (record d { temp = some raw })

-- os.Remove of the temporary file, which is deferred; after the rename there is none.
remove_temp : Disk → Disk
unfolding record_file
remove_temp d = record_file (record d { temp = none })

-- os.Rename over the chain file.
rename_temp : Disk → Disk
unfolding record_file
rename_temp d = record_file (record d { file = d.temp; temp = none })

unfoldable pub save_unlocked : Faults → List Block → Disk → Result (Unit {0}) × Disk
unfolding write_temp remove_temp rename_temp
save_unlocked io chain d =
    let raw = encode_chain chain in
    let made = write_temp [] d in
    let partial = write_temp (take io.written raw) made in
    let full = write_temp raw made in
    if ltb max_chain_bytes (length raw)
    then (err chain_too_large, d)
    else if not io.create
    then (err io_failure, d)
    else if not io.write
    then (err io_failure, remove_temp partial)
    else if not io.sync
    then (err io_failure, remove_temp full)
    else if not io.close
    then (err io_failure, remove_temp full)
    else if not io.rename
    then (err io_failure, remove_temp full)
    else (ok tt, remove_temp (rename_temp full))
