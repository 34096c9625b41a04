-- ===== src/Storage.antt =====
-- internal/storage/chainstorage.go: the confirmed chain in memory and in its file. Each method runs
-- under the store's lock and is one step.
pub mod ChainFile
pub mod Start
pub mod Save
pub mod Invariant
pub mod Extends
pub mod Append
pub mod Replace
pub mod Restart
pub mod Durable
use distributed_p2p_ledger.Base.{
  ℕ, ◌+◌, Bool, true, false, not, ◌||◌, List, [], ◌∷◌, ◌++◌, Bytes, has, if◌then◌else◌, ◌==ₛ◌, ℤ,
  pos, ltb_ℤ, ◌==ℤ◌, ◌+ℤ◌, elements, clone_slice, last_or, map, is_ok, Error, Result, ok, err,
  ◌>>=◌, ◌>>◌, reject, not_better, stale_block, timestamp_precedes_parent, already_confirmed, panic,
}
use distributed_p2p_ledger.Models.Transaction.{Transaction}
use distributed_p2p_ledger.Models.Block.{Block, validate_block, difficulty_of}
use distributed_p2p_ledger.Models.Chain.{better_chain}
use distributed_p2p_ledger.Models.Chain
use ChainFile.{Disk, Faults, save_unlocked}

pub record Store : Type 0 where
  pub chain : List Block
  pub tx_ids : List Bytes
  pub difficulty : ℤ
  pub disk : Disk

abbrev clone_block : Block → Block
clone_block b = record b { transactions = clone_slice b.transactions }

unfoldable pub clone_chain : List Block → List Block
clone_chain [] = []
clone_chain (b ∷ chain) = clone_block b ∷ clone_chain chain

unfoldable pub get_chain : Store → Result (List Block)
get_chain s = ok (clone_chain s.chain)

-- fs.chain[len(fs.chain)-1], which panics on an empty chain.
unfoldable pub last_block : List Block → Result Block
last_block [] = err panic
last_block (b ∷ chain) = ok (last_or b chain)

unfoldable pub get_latest_block : Store → Result Block
unfolding last_block
get_latest_block s = do b ← last_block s.chain; ok (clone_block b)

-- The loop of `AddBlock` that looks for confirmed transactions.
unfoldable pub check_new : List Bytes → List Transaction → Result (Unit {0})
check_new known [] = ok tt
check_new known (tx ∷ txs) = do
  reject (has known tx.id) (already_confirmed tx.id)
  check_new known txs

-- tx_ids[tx.ID] = true, for each transaction.
unfoldable pub set_ids : List Bytes → List Transaction → List Bytes
set_ids known [] = known
set_ids known (tx ∷ txs) = set_ids (tx.id ∷ known) txs

-- The checks of `AddBlock`, before it writes.
unfoldable pub check_append : ℕ → Block → Store → Result (Unit {0})
unfolding last_block check_new
check_append now b s = do
  validate_block now b s.difficulty
  prev ← last_block s.chain
  reject (not (b.index ==ℤ prev.index +ℤ pos 1) || not (b.prev_hash ==ₛ prev.hash)) stale_block
  reject (ltb_ℤ b.timestamp prev.timestamp) timestamp_precedes_parent
  check_new s.tx_ids (elements b.transactions)

-- The writes of `AddBlock`: first the file, and the memory if that succeeded.
unfoldable pub commit_append : Faults → Block → Store → Result (Unit {0}) × Store
commit_append io b s =
    let candidate = clone_chain s.chain ++ b ∷ [] in
    let (saved, disk) = save_unlocked io candidate s.disk in
    elim saved [
      | err e ↦ (err e, record s { disk = disk })
      | ok _ ↦ (
        ok tt,
        record s {
          chain = clone_chain candidate;
          tx_ids = set_ids s.tx_ids (elements b.transactions);
          disk = disk;
        },
      )
    ]

unfoldable pub add_block : ℕ → Faults → Block → Store → Result (Unit {0}) × Store
add_block now io b s = elim (check_append now b s) [
  | err e ↦ (err e, s)
  | ok _ ↦ commit_append io b s
]

unfoldable pub index_from : List Bytes → List Block → List Bytes
unfolding set_ids
index_from known [] = known
index_from known (b ∷ chain) = index_from (set_ids known (elements b.transactions)) chain

unfoldable pub index_transactions : Store → Store
unfolding index_from
index_transactions s = record s { tx_ids = index_from [] s.chain }

unfoldable pub commit_replace : Faults → List Block → Store → Result (Unit {0}) × Store
commit_replace io candidate s =
    let (saved, disk) = save_unlocked io candidate s.disk in
    elim saved [
      | err e ↦ (err e, record s { disk = disk })
      | ok _ ↦ (ok tt, index_transactions (record s { chain = candidate; disk = disk }))
    ]

-- The checks of `ReplaceChain`, on its copy of the chain.
unfoldable pub check_replace : ℕ → List Block → Store → Result (Unit {0})
check_replace now candidate s = do
  Chain.validate_chain now candidate s.difficulty
  reject (not (better_chain candidate s.chain)) not_better

unfoldable pub replace_chain : ℕ → Faults → List Block → Store → Result (Unit {0}) × Store
replace_chain now io chain s =
    let candidate = clone_chain chain in
    elim (check_replace now candidate s) [
      | err e ↦ (err e, s)
      | ok _ ↦ commit_replace io candidate s
    ]

unfoldable pub transaction_exists : Bytes → Store → Result Bool
transaction_exists id s = ok (has s.tx_ids id)

-- storage.ValidateChain
unfoldable pub validate_chain : ℕ → List Block → List ℤ → Bool
validate_chain now chain ds = is_ok (Chain.validate_chain now chain (difficulty_of ds))
