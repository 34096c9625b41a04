-- ===== src/Mempool.antt =====
-- internal/mempool/mempool.go: the pending transactions. Each method runs under the pool's lock and is
-- one step. A method that may fail returns its error beside the pool.
pub mod Invariant
pub mod Sorted
pub mod Pending
pub mod Latest
pub mod Reorg
pub mod Replace
use distributed_p2p_ledger.Base.{
  ℕ, ◌≡◌, Bool, true, false, not, List, [], ◌∷◌, Bytes, length, ltb, leb, ltb_ₛ, has, if◌then◌else◌,
  Map, lookup, insert, delete, values, is_some, Error, duplicate, full, Result, ok, err, ◌>>=◌,
  ◌>>◌, reject, is_ok, elements,
}
use distributed_p2p_ledger.Models.Transaction.{Transaction, validate_transaction}
use distributed_p2p_ledger.Models.Block.{Block}

abbrev pub max_pending : ℕ
max_pending = 1000

pub record Mempool : Type 0 where
  pub transactions : Map Transaction

abbrev pub new_mempool : Mempool
new_mempool = record { transactions = [] }

-- The checks of `TryAdd`, before its only write.
unfoldable pub check_add : Transaction → Mempool → Result (Unit {0})
check_add tx m = do
  validate_transaction tx
  reject (is_some (lookup tx.id m.transactions)) duplicate
  reject (leb max_pending (length m.transactions)) full

unfoldable pub try_add : Transaction → Mempool → Result (Unit {0}) × Mempool
unfolding check_add
try_add tx m = elim (check_add tx m) [
  | err e ↦ (err e, m)
  | ok _ ↦ (ok tt, record m { transactions = insert tx.id tx m.transactions })
]

unfoldable pub add : Transaction → Mempool → Bool × Mempool
unfolding try_add
add tx m = let (r, m') = try_add tx m in (is_ok r, m')

unfoldable pub exists : Bytes → Mempool → Bool
exists id m = is_some (lookup id m.transactions)

-- The place of a transaction in a list that is sorted by ID.
insert_by_id : Transaction → List Transaction → List Transaction
insert_by_id tx [] = tx ∷ []
insert_by_id tx (x ∷ xs) = if ltb_ₛ x.id tx.id then x ∷ insert_by_id tx xs else tx ∷ x ∷ xs

-- sort.Slice by ID; see `Pending` for other ways to sort.
unfoldable pub sort_by_id : List Transaction → List Transaction
unfolding insert_by_id
sort_by_id [] = []
sort_by_id (x ∷ xs) = insert_by_id x (sort_by_id xs)

unfoldable pub get_pending : Mempool → List Transaction
get_pending m = sort_by_id (values m.transactions)

delete_all : List Bytes → Map Transaction → Map Transaction
delete_all [] txs = txs
delete_all (id ∷ ids) txs = delete_all ids (delete id txs)

unfoldable pub remove : List Bytes → Mempool → Mempool
unfolding delete_all
remove ids m = record m { transactions = delete_all ids m.transactions }

unfoldable pub size : Mempool → ℕ
size m = length m.transactions

-- The loops of `PrepareReorg` that collect the confirmed IDs.
confirm_transactions : List Bytes → List Transaction → List Bytes
confirm_transactions confirmed [] = confirmed
confirm_transactions confirmed (tx ∷ txs) = confirm_transactions (tx.id ∷ confirmed) txs

unfoldable pub confirm_blocks : List Bytes → List Block → List Bytes
unfolding confirm_transactions
confirm_blocks confirmed [] = confirmed
confirm_blocks confirmed (b ∷ chain) =
    confirm_blocks (confirm_transactions confirmed (elements b.transactions)) chain

-- The loops that collect what is pending afterwards.
unfoldable pub keep_transactions : List Bytes → Map Transaction → List Transaction → Map Transaction
keep_transactions confirmed next [] = next
keep_transactions confirmed next (tx ∷ txs) =
    keep_transactions confirmed (if not (has confirmed tx.id) then insert tx.id tx next else next)
      txs

unfoldable pub keep_blocks : List Bytes → Map Transaction → List Block → Map Transaction
unfolding keep_transactions
keep_blocks confirmed next [] = next
keep_blocks confirmed next (b ∷ chain) =
    keep_blocks confirmed (keep_transactions confirmed next (elements b.transactions)) chain

unfoldable pub prepare_reorg : List Block → List Block → Mempool → Result (List Transaction)
prepare_reorg old new_chain m =
    let confirmed = confirm_blocks [] new_chain in
    let pending = keep_transactions confirmed [] (get_pending m) in
    let next = keep_blocks confirmed pending old in
    if ltb max_pending (length next) then err full else ok (values next)

put_all : Map Transaction → List Transaction → Map Transaction
put_all txs [] = txs
put_all txs (tx ∷ rest) = put_all (insert tx.id tx txs) rest

unfoldable pub replace : List Transaction → Mempool → Mempool
unfolding put_all
replace txs m = record m { transactions = put_all [] txs }
