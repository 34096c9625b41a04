-- ===== src/Models/Chain/Extend.antt =====
-- A ledger with one more block, and at a later time.
use distributed_p2p_ledger.Base.{
  ℕ, ◌+◌, ◌≤◌, ◌≡◌, refl, ap, sym, ◌∙◌, List, [], ◌∷◌, ◌++◌, length, length-append, append_assoc,
  append-nil, last_or, Apart, Apart-symm, Distinct-append, arith, ℤ, pos, ok,
}
use distributed_p2p_ledger.Models.Block.{Block, ids, create_genesis_block}
use distributed_p2p_ledger.Models.Block.Validity.{IsValidBlock, IsValidBlock-later}
use distributed_p2p_ledger.Models.Chain.{validate_chain, chain_ids}
use distributed_p2p_ledger.Models.Chain.Validity.{IsLedger, IsLinked, Follows, validate_chain_iff}

module _ (now : ℕ) (d : ℤ) where
  IsLinked-append :
      (i : ℕ) (prev : Block) (chain : List Block) (b : Block)
      → IsLinked now d i prev chain
      → IsValidBlock now b d
      → Follows (i + length chain) (last_or prev chain) b
      → IsLinked now d i prev (chain ++ b ∷ [])
  IsLinked-append i prev [] b l v f = (
    v,
    record {
      index = f.index ∙ ap pos (omega arith);
      prev_hash = f.prev_hash;
      timestamp = f.timestamp;
    },
    tt,
  )
  IsLinked-append i prev (c ∷ chain) b l v f = (
    l.0,
    l.1,
    IsLinked-append (i + 1) c chain b l.2 v (record {
      index = f.index ∙ ap pos (omega arith);
      prev_hash = f.prev_hash;
      timestamp = f.timestamp;
    }),
  )

  -- The last block of a linked chain stands at its height.
  linked-index :
      (i : ℕ) (prev : Block) (chain : List Block)
      → prev.index ≡ pos i
      → IsLinked now d (i + 1) prev chain
      → (last_or prev chain).index ≡ pos (i + length chain)
  linked-index i prev [] e l = e ∙ ap pos (omega arith)
  linked-index i prev (b ∷ chain) e l =
      linked-index (i + 1) b chain (Follows.index l.1) l.2 ∙ ap pos (omega arith)

pub chain_ids-append : (xs ys : List Block) → chain_ids (xs ++ ys) ≡ chain_ids xs ++ chain_ids ys
chain_ids-append [] ys = refl
chain_ids-append (b ∷ xs) ys =
    ap (◌++◌ (ids b)) (chain_ids-append xs ys)
    ∙ sym (append_assoc (ids b) (chain_ids xs) (chain_ids ys))

genesis-index : (d : ℤ) → (create_genesis_block (d ∷ [])).index ≡ pos 0
unfolding create_genesis_block
genesis-index d = refl

-- The height of the tip is the number of blocks behind the genesis block.
pub tip-index :
    {now : ℕ} {d : ℤ} {first : Block} {chain : List Block}
    → IsLedger now d first chain
    → (last_or first chain).index ≡ pos (length chain)
tip-index {now} {d} {first} {chain} l =
    linked-index now d 0 first chain (ap (λ (b : Block). b.index) l.genesis ∙ genesis-index d)
      l.linked
    ∙ ap pos (omega arith)

-- A valid block that follows the tip, with new transactions, makes a ledger again.
pub IsLedger-append :
    {now : ℕ} {d : ℤ} {first : Block} {chain : List Block} (b : Block)
    → IsLedger now d first chain
    → IsValidBlock now b d
    → Follows (1 + length chain) (last_or first chain) b
    → Apart (ids b) (chain_ids chain)
    → IsLedger now d first (chain ++ b ∷ [])
IsLedger-append {now} {d} {first} {chain} b l v f apart =
    let height : b.index ≡ pos (1 + length chain) = f.index in
    let below = v.index_range.1 in
    record {
      difficulty_range = l.difficulty_range;
      short = ground (arith, length-append chain (b ∷ []));
      genesis = l.genesis;
      linked = IsLinked-append now d 1 first chain b l.linked v f;
      distinct_ids =
          rw (chain_ids-append chain (b ∷ []), append-nil (ids b))
            ((Distinct-append (chain_ids chain) (ids b)).1
              (l.distinct_ids, v.distinct_ids, Apart-symm (ids b) (chain_ids chain) apart));
    }

IsLinked-later :
    (now later : ℕ) (d : ℤ) (i : ℕ) (prev : Block) (chain : List Block)
    → now ≤ later
    → IsLinked now d i prev chain
    → IsLinked later d i prev chain
IsLinked-later now later d i prev [] h l = tt
IsLinked-later now later d i prev (b ∷ chain) h l =
    (IsValidBlock-later now later b d h l.0, l.1, IsLinked-later now later d (i + 1) b chain h l.2)

-- A ledger stays one as the clock advances.
pub IsLedger-later :
    {now : ℕ} (later : ℕ) {d : ℤ} {first : Block} {chain : List Block}
    → now ≤ later
    → IsLedger now d first chain
    → IsLedger later d first chain
IsLedger-later {now} later {d} {first} {chain} h l = record {
  difficulty_range = l.difficulty_range;
  short = l.short;
  genesis = l.genesis;
  linked = IsLinked-later now later d 1 first chain h l.linked;
  distinct_ids = l.distinct_ids;
}

IsLinked-prefix :
    (now : ℕ) (d : ℤ) (i : ℕ) (prev : Block) (xs ys : List Block)
    → IsLinked now d i prev (xs ++ ys)
    → IsLinked now d i prev xs
IsLinked-prefix now d i prev [] ys l = tt
IsLinked-prefix now d i prev (b ∷ xs) ys l = (l.0, l.1, IsLinked-prefix now d (i + 1) b xs ys l.2)

-- If a chain is accepted, every front part of it that is not empty is accepted at the same time
-- and difficulty.
pub validate_chain-prefix :
    (now : ℕ) (d : ℤ) (first : Block) (xs ys : List Block)
    → validate_chain now (first ∷ xs ++ ys) d ≡ ok tt
    → validate_chain now (first ∷ xs) d ≡ ok tt
validate_chain-prefix now d first xs ys h =
    let l = (validate_chain_iff now d first (xs ++ ys)).0 h in
    (validate_chain_iff now d first xs).1 (record {
      difficulty_range = l.difficulty_range;
      short = omega (arith, length-append xs ys, l.short);
      genesis = l.genesis;
      linked = IsLinked-prefix now d 1 first xs ys l.linked;
      distinct_ids =
          ((Distinct-append (chain_ids xs) (chain_ids ys)).0
            (rw (← chain_ids-append xs ys) l.distinct_ids)).0;
    })
