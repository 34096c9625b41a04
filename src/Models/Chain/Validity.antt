-- ===== src/Models/Chain/Validity.antt =====
-- What `validate_chain` accepts.
use distributed_p2p_ledger.Base.{
  ℕ, ◌+◌, ◌≤◌, ◌≡◌, ◌↔◌, refl, sym, false, not, ◌||◌, List, [], ◌∷◌, ◌++◌, Bytes, length, Distinct,
  Apart, Apart-nil_right, Apart-ext, Apart-append_right, Apart-append_left, Apart-symm,
  Distinct-append, ==ₛ_iff, ◌==ₛ◌, arith, ℤ, pos, ◌≤ℤ◌, ◌==ℤ◌, ==ℤ_iff, ltb_ℤ, elements, ok, reject,
  wrap, wrap-ok, reject-ok, in_block, >>=-eq-ok,
}
use distributed_p2p_ledger.Models.Block.{
  Block, ids, check_difficulty, create_genesis_block, validate_block, max_chain_blocks,
}
use distributed_p2p_ledger.Models.Block.Validity.{
  IsDifficulty, check_difficulty_iff, IsValidBlock, validate_block_iff,
}
use distributed_p2p_ledger.Models.Chain.{
  mark_transactions, validate_from, validate_chain, chain_ids,
}
use distributed_p2p_ledger.Models.Chain.Equal.{deep_equal_iff}
use distributed_p2p_ledger.Models.Chain.Marks.{mark_transactions-ok, mark_transactions-fresh}

-- `b` is the block at height `i` behind `prev`.
pub record Follows (i : ℕ) (prev b : Block) : Type 0 where
  pub index : b.index ≡ pos i
  pub prev_hash : b.prev_hash ≡ prev.hash
  pub timestamp : prev.timestamp ≤ℤ b.timestamp

-- The blocks from height `i` on are valid, and each follows the one before it.
abbrev pub IsLinked : ℕ → ℤ → ℕ → Block → List Block → Type 0
IsLinked now d i prev [] = Unit
IsLinked now d i prev (b ∷ chain) =
    IsValidBlock now b d × Follows i prev b × IsLinked now d (i + 1) b chain

Follows-test :
    (i : ℕ) (prev b : Block)
    → ((not (b.index ==ℤ pos i)
          || not (b.prev_hash ==ₛ prev.hash)
          || ltb_ℤ b.timestamp prev.timestamp)
        ≡ false)
      ↔ Follows i prev b
Follows-test i prev b = (
  λ h. record {
    index = (==ℤ_iff b.index (pos i)).0 (ground arith);
    prev_hash = (==ₛ_iff b.prev_hash prev.hash).0 (ground arith);
    timestamp = ground arith;
  },
  λ f. ground (
    arith,
    (==ℤ_iff b.index (pos i)).1 f.index,
    (==ₛ_iff b.prev_hash prev.hash).1 f.prev_hash,
    f.timestamp,
  ),
)

validate_from-ok :
    (now : ℕ) (d : ℤ) (i : ℕ) (seen : List Bytes) (prev : Block) (chain : List Block)
    → validate_from now d i seen prev chain ≡ ok tt
    → IsLinked now d i prev chain × Distinct (chain_ids chain) × Apart (chain_ids chain) seen
unfolding validate_from
validate_from-ok now d i seen prev [] h = (tt, tt, tt)
validate_from-ok now d i seen prev (b ∷ chain) h =
    let (_, valid, h₁) = >>=-eq-ok (wrap (in_block i) (validate_block now b d)) _ h in
    let (_, follow, h₂) = >>=-eq-ok (reject _ _) _ h₁ in
    let (seen', mark, h₃) = >>=-eq-ok (mark_transactions seen (elements b.transactions)) _ h₂ in
    let (distinct, apart, marks) = mark_transactions-ok seen (elements b.transactions) mark in
    let (linked, rest, apart') = validate_from-ok now d (i + 1) seen' b chain h₃ in
    let apart'' =
      (Apart-append_right (chain_ids chain) (ids b) seen).0
        (Apart-ext (chain_ids chain) seen' (ids b ++ seen) (λ k. sym (marks k)) apart') in
    (
      (
        (validate_block_iff now b d).0 (wrap-ok (in_block i) (validate_block now b d) valid),
        (Follows-test i prev b).0 (reject-ok _ _ follow),
        linked,
      ),
      (Distinct-append (ids b) (chain_ids chain)).1
          (distinct, rest, Apart-symm (chain_ids chain) (ids b) apart''.0),
      (Apart-append_left (ids b) (chain_ids chain) seen).1 (apart, apart''.1),
    )

linked-validate_from :
    (now : ℕ) (d : ℤ) (i : ℕ) (seen : List Bytes) (prev : Block) (chain : List Block)
    → IsLinked now d i prev chain
    → Distinct (chain_ids chain)
    → Apart (chain_ids chain) seen
    → validate_from now d i seen prev chain ≡ ok tt
unfolding validate_from
linked-validate_from now d i seen prev [] l distinct apart = refl
linked-validate_from now d i seen prev (b ∷ chain) l distinct apart =
    let (own, rest, cross) = (Distinct-append (ids b) (chain_ids chain)).0 distinct in
    let (apart₁, apart₂) = (Apart-append_left (ids b) (chain_ids chain) seen).0 apart in
    let (seen', mark) = mark_transactions-fresh seen (elements b.transactions) own apart₁ in
    let (_, _, marks) = mark_transactions-ok seen (elements b.transactions) mark in
    let apart₃ = Apart-ext (chain_ids chain) (ids b ++ seen) seen' marks (
      (Apart-append_right (chain_ids chain) (ids b) seen).1
        (Apart-symm (ids b) (chain_ids chain) cross, apart₂)) in
    rw ((validate_block_iff now b d).1 l.0, (Follows-test i prev b).1 l.1, mark)
      (linked-validate_from now d (i + 1) seen' b chain l.2 rest apart₃)

-- A ledger: the genesis block of its difficulty, then valid blocks, each following the one before it,
-- with no transaction ID twice in the whole chain.
pub record IsLedger (now : ℕ) (d : ℤ) (first : Block) (chain : List Block) : Type 0 where
  pub difficulty_range : IsDifficulty d
  pub short : length (first ∷ chain) ≤ max_chain_blocks
  pub genesis : first ≡ create_genesis_block (d ∷ [])
  pub linked : IsLinked now d 1 first chain
  pub distinct_ids : Distinct (chain_ids chain)

module _ (now : ℕ) (d : ℤ) (first : Block) (chain : List Block) where
  validate_chain-IsLedger :
      validate_chain now (first ∷ chain) d ≡ ok tt → IsLedger now d first chain
  unfolding validate_chain
  validate_chain-IsLedger h =
      let (linked, distinct, _) = validate_from-ok now d 1 [] first chain (ground arith) in
      record {
        difficulty_range = (check_difficulty_iff d).0 (ground arith);
        short = ground arith;
        genesis = (deep_equal_iff first (create_genesis_block (d ∷ []))).0 (ground arith);
        linked = linked;
        distinct_ids = distinct;
      }

  ledger-validate_chain : IsLedger now d first chain → validate_chain now (first ∷ chain) d ≡ ok tt
  unfolding validate_chain
  ledger-validate_chain l = ground (
    arith,
    (check_difficulty_iff d).1 l.difficulty_range,
    l.short,
    (deep_equal_iff first (create_genesis_block (d ∷ []))).1 l.genesis,
    linked-validate_from now d 1 [] first chain l.linked l.distinct_ids
        (Apart-nil_right (chain_ids chain)),
  )

  -- `ValidateChain` accepts a chain that is not empty exactly if it is a ledger.
  pub validate_chain_iff :
      (validate_chain now (first ∷ chain) d ≡ ok tt) ↔ IsLedger now d first chain
  validate_chain_iff = (validate_chain-IsLedger, ledger-validate_chain)

-- A chain that `ValidateChain` accepts has a first block.
pub validate_chain-cons :
    (now : ℕ) (chain : List Block) (d : ℤ)
    → validate_chain now chain d ≡ ok tt
    → (first : Block) × (rest : List Block) × (chain ≡ first ∷ rest)
unfolding validate_chain
validate_chain-cons now [] d h =
    let (_, _, h₁) = >>=-eq-ok (check_difficulty d) _ h in absurd (ground arith)
validate_chain-cons now (first ∷ rest) d h = (first, rest, refl)
