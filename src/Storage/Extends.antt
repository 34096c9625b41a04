-- ===== src/Storage/Extends.antt =====
-- What `checkAppend` asks of a block: that it extends the chain.
use mathlib.Core.Path.{subst}
use distributed_p2p_ledger.Base.{
  ℕ, ◌≤◌, ◌≡◌, ◌↔◌, refl, sym, ap, ◌∙◌, List, [], ◌∷◌, ◌++◌, Bytes, length, arith, has, ==ₛ_iff, ℤ,
  pos, ==ℤ_iff, ◌≤ℤ◌, ◌+ℤ◌, +ℤ_small, Apart, Apart-ext, elements, last_or, ok, >>=-eq-ok,
}
use distributed_p2p_ledger.Models.Transaction.{Transaction, tx_ids}
use distributed_p2p_ledger.Models.Block.{Block, ids, validate_block}
use distributed_p2p_ledger.Models.Block.Validity.{
  IsValidBlock, IsValidBlock-later, validate_block_iff,
}
use distributed_p2p_ledger.Models.Chain.{chain_ids}
use distributed_p2p_ledger.Models.Chain.Extend.{tip-index, IsLedger-append}
use distributed_p2p_ledger.Storage.{Store, last_block, check_new, check_append}
use distributed_p2p_ledger.Storage.Invariant.{IsLedgerChain, ledger-ids}

check_new_iff :
    (known : List Bytes) (txs : List Transaction)
    → (check_new known txs ≡ ok tt) ↔ Apart (tx_ids txs) known
unfolding check_new
check_new_iff known [] = (λ h. tt, λ h. refl)
check_new_iff known (tx ∷ txs) = (
  λ h. (ground arith, (check_new_iff known txs).0 (ground arith)),
  λ h. ground (arith, (check_new_iff known txs).1 h.1),
)

-- `b` is valid, stands behind the tip `prev` of the chain, and confirms only new transactions.
pub record Extends (now : ℕ) (b prev : Block) (s : Store) : Type 0 where
  pub valid : IsValidBlock now b s.difficulty
  pub tip : last_block s.chain ≡ ok prev
  pub index : b.index ≡ prev.index +ℤ pos 1
  pub prev_hash : b.prev_hash ≡ prev.hash
  pub timestamp : prev.timestamp ≤ℤ b.timestamp
  pub new_ids : Apart (ids b) s.tx_ids

pub Extends-later :
    {now later : ℕ} {b prev : Block} {s : Store}
    → now ≤ later
    → Extends now b prev s
    → Extends later b prev s
Extends-later {now} {later} {b} {prev} {s} h x = record {
  valid = IsValidBlock-later now later b s.difficulty h x.valid;
  tip = x.tip;
  index = x.index;
  prev_hash = x.prev_hash;
  timestamp = x.timestamp;
  new_ids = x.new_ids;
}

module _ (now : ℕ) (b : Block) (s : Store) where
  pub check_append-Extends : check_append now b s ≡ ok tt → (prev : Block) × Extends now b prev s
  unfolding check_append
  check_append-Extends h =
      let (_, valid, h₁) = >>=-eq-ok (validate_block now b s.difficulty) _ h in
      let (prev, tip, h₂) = >>=-eq-ok (last_block s.chain) _ h₁ in
      (
        prev,
        record {
          valid = (validate_block_iff now b s.difficulty).0 valid;
          tip = tip;
          index = (==ℤ_iff b.index (prev.index +ℤ pos 1)).0 (ground arith);
          prev_hash = (==ₛ_iff b.prev_hash prev.hash).0 (ground arith);
          timestamp = ground arith;
          new_ids = (check_new_iff s.tx_ids (elements b.transactions)).0 (ground arith);
        },
      )

  pub Extends-check_append : (prev : Block) → Extends now b prev s → check_append now b s ≡ ok tt
  unfolding check_append
  Extends-check_append prev e = ground (
    arith,
    (validate_block_iff now b s.difficulty).1 e.valid,
    e.tip,
    (==ℤ_iff b.index (prev.index +ℤ pos 1)).1 e.index,
    (==ₛ_iff b.prev_hash prev.hash).1 e.prev_hash,
    e.timestamp,
    (check_new_iff s.tx_ids (elements b.transactions)).1 e.new_ids,
  )

last_block-cons :
    (first : Block) (rest : List Block) → last_block (first ∷ rest) ≡ ok (last_or first rest)
unfolding last_block
last_block-cons first rest = refl

-- The block behind the tip makes a longer ledger.
pub Extends-IsLedgerChain :
    (now : ℕ) (b prev : Block) (s : Store) (chain : List Block)
    → s.chain ≡ chain
    → IsLedgerChain now s.difficulty chain
    → ((k : Bytes) → has s.tx_ids k ≡ has (chain_ids chain) k)
    → Extends now b prev s
    → IsLedgerChain now s.difficulty (chain ++ b ∷ [])
Extends-IsLedgerChain now b prev s [] e l indexed x = absurd l
Extends-IsLedgerChain now b prev s (first ∷ rest) e l indexed x =
    let tip : prev ≡ last_or first rest =
      ground (arith, x.tip, last_block-cons first rest, ap last_block e) in
    let height : prev.index ≡ pos (length rest) = ap (λ (p : Block). p.index) tip ∙ tip-index l in
    IsLedger-append b l x.valid
      (record {
        index =
            x.index
            ∙ ap (λ (n : ℤ). n +ℤ pos 1) height
            ∙ +ℤ_small (length rest) 1 (omega (arith, l.short))
            ∙ ap pos (omega arith);
        prev_hash = x.prev_hash ∙ ap (λ (p : Block). p.hash) tip;
        timestamp = subst (λ (p : Block). p.timestamp ≤ℤ b.timestamp) tip x.timestamp;
      })
      (Apart-ext (ids b) s.tx_ids (chain_ids rest)
        (λ k.
          ap (λ (l : List Bytes). has l k) (sym (ledger-ids now s.difficulty first rest l))
          ∙ sym (indexed k))
        x.new_ids)
