-- ===== src/Storage/Invariant.antt =====
-- The store's invariant: a ledger in memory and its index; and what the chain file holds.
use distributed_p2p_ledger.Base.{
  ℕ, ◌+◌, ◌≤◌, ◌≡◌, refl, ap, ◌∙◌, ◌||◌, List, [], ◌∷◌, ◌++◌, Bytes, length, arith, some, has,
  has-append, ℤ, Slice, slice, nil_slice, elements, clone_slice,
}
use distributed_p2p_ledger.Models.Transaction.{Transaction, tx_ids}
use distributed_p2p_ledger.Models.Block.{Block, ids, create_genesis_block}
use distributed_p2p_ledger.Models.Block.Validity.{IsValidBlock}
use distributed_p2p_ledger.Models.Chain.{encode_chain, chain_ids}
use distributed_p2p_ledger.Models.Chain.Validity.{IsLedger, IsLinked}
use distributed_p2p_ledger.Models.Chain.Extend.{IsLedger-later}
use distributed_p2p_ledger.Mempool.Reorg.{HasValidTransactions}
use distributed_p2p_ledger.Storage.{Store, clone_chain, set_ids, index_from}
use distributed_p2p_ledger.Storage.ChainFile.{max_chain_bytes}

-- A chain that is not empty and a ledger.
abbrev pub IsLedgerChain : ℕ → ℤ → List Block → Type 0
IsLedgerChain now d [] = ⊥
IsLedgerChain now d (first ∷ chain) = IsLedger now d first chain

pub record IsValidStore (now : ℕ) (s : Store) : Type 0 where
  pub ledger : IsLedgerChain now s.difficulty s.chain
  pub indexed : (k : Bytes) → has s.tx_ids k ≡ has (chain_ids s.chain) k

-- The chain file holds the JSON of the chain in memory.
pub record IsSaved (s : Store) : Type 0 where
  pub file : s.disk.file ≡ some (encode_chain s.chain)
  pub fits : length (encode_chain s.chain) ≤ max_chain_bytes

pub IsLedgerChain-later :
    (now later : ℕ) (d : ℤ) (chain : List Block)
    → now ≤ later
    → IsLedgerChain now d chain
    → IsLedgerChain later d chain
IsLedgerChain-later now later d [] h l = l
IsLedgerChain-later now later d (first ∷ chain) h l = IsLedger-later later h l

-- The invariant does not depend on the clock standing still.
pub IsValidStore-later :
    (now later : ℕ) (s : Store) → now ≤ later → IsValidStore now s → IsValidStore later s
IsValidStore-later now later s h v = record {
  ledger = IsLedgerChain-later now later s.difficulty s.chain h v.ledger;
  indexed = v.indexed;
}

-- Blocks of a ledger hold slices that are not nil, so that cloning changes nothing.
clone_slice_pos : (s : Slice Transaction) → 1 ≤ length (elements s) → clone_slice s ≡ s
clone_slice_pos nil_slice h = absurd (omega arith)
clone_slice_pos (slice xs) h = refl

clone_linked :
    (now : ℕ) (d : ℤ) (i : ℕ) (prev : Block) (chain : List Block)
    → IsLinked now d i prev chain
    → clone_chain chain ≡ chain
unfolding clone_chain
clone_linked now d i prev [] l = refl
clone_linked now d i prev (b ∷ chain) l = ground (
  arith,
  clone_slice_pos b.transactions (IsValidBlock.size_range l.0).0,
  clone_linked now d (i + 1) b chain l.2,
)

genesis-transactions : (d : ℤ) → (create_genesis_block (d ∷ [])).transactions ≡ slice []
unfolding create_genesis_block
genesis-transactions d = refl

pub clone_chain-ledger :
    (now : ℕ) (d : ℤ) (chain : List Block) → IsLedgerChain now d chain → clone_chain chain ≡ chain
unfolding clone_chain
clone_chain-ledger now d [] l = refl
clone_chain-ledger now d (first ∷ chain) l = ground (
  arith,
  ap (λ (b : Block). b.transactions) l.genesis,
  genesis-transactions d,
  clone_linked now d 1 first chain l.linked,
)

pub clone_chain-append :
    (xs ys : List Block) → clone_chain (xs ++ ys) ≡ clone_chain xs ++ clone_chain ys
unfolding clone_chain
clone_chain-append [] ys = refl
clone_chain-append (b ∷ xs) ys = ground (arith, clone_chain-append xs ys)

pub clone_valid :
    (now : ℕ) (d : ℤ) (b : Block) → IsValidBlock now b d → clone_chain (b ∷ []) ≡ b ∷ []
unfolding clone_chain
clone_valid now d b v = ground (arith, clone_slice_pos b.transactions v.size_range.0)

pub has-set_ids :
    (known : List Bytes) (txs : List Transaction) (k : Bytes)
    → has (set_ids known txs) k ≡ (has (tx_ids txs) k || has known k)
unfolding set_ids has
has-set_ids known [] k = refl
has-set_ids known (tx ∷ txs) k = ground (arith, has-set_ids (tx.id ∷ known) txs k)

pub has-index_from :
    (known : List Bytes) (chain : List Block) (k : Bytes)
    → has (index_from known chain) k ≡ (has (chain_ids chain) k || has known k)
unfolding index_from has
has-index_from known [] k = refl
has-index_from known (b ∷ chain) k = ground (
  arith,
  has-index_from (set_ids known (elements b.transactions)) chain k,
  has-set_ids known (elements b.transactions) k,
  has-append (ids b) (chain_ids chain) k,
)

linked-transactions :
    (now : ℕ) (d : ℤ) (i : ℕ) (prev : Block) (chain : List Block)
    → IsLinked now d i prev chain
    → HasValidTransactions chain
linked-transactions now d i prev [] l = tt
linked-transactions now d i prev (b ∷ chain) l =
    (IsValidBlock.transactions l.0, linked-transactions now d (i + 1) b chain l.2)

-- Every transaction of a ledger is valid, and the genesis block has none.
pub ledger-transactions :
    (now : ℕ) (d : ℤ) (chain : List Block) → IsLedgerChain now d chain → HasValidTransactions chain
ledger-transactions now d [] l = tt
ledger-transactions now d (first ∷ chain) l = (
  rw (ap (λ (b : Block). b.transactions) l.genesis ∙ genesis-transactions d) tt,
  linked-transactions now d 1 first chain l.linked,
)

-- The IDs of a ledger are those of the blocks behind its genesis block.
pub ledger-ids :
    (now : ℕ) (d : ℤ) (first : Block) (chain : List Block)
    → IsLedger now d first chain
    → chain_ids (first ∷ chain) ≡ chain_ids chain
ledger-ids now d first chain l =
    ap (λ (t : Slice Transaction). tx_ids (elements t) ++ chain_ids chain)
      (ap (λ (b : Block). b.transactions) l.genesis ∙ genesis-transactions d)
