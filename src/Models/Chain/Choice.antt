-- ===== src/Models/Chain/Choice.antt =====
-- The order by which nodes prefer chains.
use distributed_p2p_ledger.Base.{
  ◌<◌, ◌≡◌, refl, true, false, List, [], length, ltb_ₛ_irrefl, ltb_ₛ_trans, ltb_ₛ_total, arith,
}
use distributed_p2p_ledger.Models.Block.{Block}
use distributed_p2p_ledger.Models.Chain.{better_chain, tip_hash}

-- No chain is preferred to itself.
pub better_chain_irrefl : (a : List Block) → better_chain a a ≡ false
unfolding better_chain
better_chain_irrefl a = ground (arith, ltb_ₛ_irrefl (tip_hash a))

-- A chain that is preferred to a second, which is preferred to a third, is preferred to the
-- third.
pub better_chain_trans :
    (a b c : List Block)
    → better_chain a b ≡ true
    → better_chain b c ≡ true
    → better_chain a c ≡ true
unfolding better_chain
better_chain_trans a b c h k = ground (arith, ltb_ₛ_trans (tip_hash a) (tip_hash b) (tip_hash c))

-- Two chains neither of which is preferred to the other have the same length and the same tip
-- hash.
pub better_chain_total :
    (a b : List Block)
    → better_chain a b ≡ false
    → better_chain b a ≡ false
    → (length a ≡ length b) × (tip_hash a ≡ tip_hash b)
unfolding better_chain
better_chain_total [] [] h k = (refl, refl)
better_chain_total a b h k = ground (arith, ltb_ₛ_total (tip_hash a) (tip_hash b))

-- A longer chain is preferred, whatever its tip.
pub longer-better_chain : (a b : List Block) → length b < length a → better_chain a b ≡ true
unfolding better_chain
longer-better_chain a b h = ground arith
