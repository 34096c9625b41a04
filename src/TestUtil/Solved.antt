-- ===== src/TestUtil/Solved.antt =====
-- The loop of `Block` beside the miner's `Solve`.
use distributed_p2p_ledger.Base.{
  ℕ, zero, suc, ◌+◌, ◌^◌, ◌≡◌, ◌↔◌, refl, sym, ◌∙◌, inl, inr, Bool-cases, true, false, List, Bytes,
  ◌==◌, pos, ltb_ℤ, Option, none, some, ok, err, arith, Result, map, ap,
}
use distributed_p2p_ledger.Models.Block.{Block, calculate_hash, check_difficulty}
use distributed_p2p_ledger.Models.Block.Validity.{check_difficulty_iff}
use distributed_p2p_ledger.Miner.{
  Signal, quiet, candidate, meets_target, max_nonce, solve_from, solve,
}
use distributed_p2p_ledger.Miner.Search.{
  next_block, next_nonce, solve_from_hit, solve_from_last, solve_from_next,
}
use distributed_p2p_ledger.TestUtil.{find_nonce, message, block}

abbrev pub undisturbed : ℕ → Signal
undisturbed turn = quiet

-- What a search that ends with a block makes of the result of `Solve`.
abbrev solved : Option (Result (Unit {0}) × Block) → Option Block
solved none = none
solved (some (err e, b)) = none
solved (some (ok _, b)) = some b

solved_iff :
    (r : Option (Result (Unit {0}) × Block)) (t : Block)
    → (solved r ≡ some t) ↔ (r ≡ some (ok tt, t))
solved_iff none t = (λ h. ground arith, λ h. ground arith)
solved_iff (some (err e, b)) t = (λ h. ground arith, λ h. ground arith)
solved_iff (some (ok _, b)) t = (λ h. ground arith, λ h. ground arith)

-- One turn of the loop.
module _ (fuel : ℕ) (b : Block) (d : ltb_ℤ b.difficulty (pos 0) ≡ false) where
  find_nonce_hit :
      meets_target b (calculate_hash b) ≡ true
      → find_nonce (suc fuel) b ≡ some (record b { hash = calculate_hash b })
  unfolding find_nonce
  find_nonce_hit h = rw (d, h, find_nonce) refl

  find_nonce_next :
      meets_target b (calculate_hash b) ≡ false
      → find_nonce (suc fuel) b ≡ find_nonce fuel (next_block b)
  unfolding find_nonce
  find_nonce_next h = rw (d, h, find_nonce) refl

find_nonce-zero : (b : Block) → find_nonce zero b ≡ none
unfolding find_nonce
find_nonce-zero b = refl

solve_from-zero : (turn : ℕ) (b : Block) → solve_from zero undisturbed turn b ≡ none
unfolding solve_from
solve_from-zero turn b = refl

last_turn : (n fuel : ℕ) → n + suc fuel ≡ 2 ^ 64 → (n == max_nonce) ≡ true → fuel ≡ zero
last_turn n fuel enough last = ground arith

-- As long as the nonce does not pass its last value, both loops try the same nonces.
find_nonce-solve_from :
    (fuel turn : ℕ) (b : Block)
    → ltb_ℤ b.difficulty (pos 0) ≡ false
    → b.nonce + fuel ≡ 2 ^ 64
    → find_nonce fuel b ≡ solved (solve_from fuel undisturbed turn b)
find_nonce-solve_from zero turn b d enough =
    find_nonce-zero b ∙ ap solved (sym (solve_from-zero turn b))
find_nonce-solve_from (suc fuel) turn b d enough =
    elim (Bool-cases (meets_target b (calculate_hash b))) [
      | inl hit ↦
          find_nonce_hit fuel b d hit
          ∙ ap solved (sym (solve_from_hit undisturbed fuel turn b refl hit))
      | inr miss ↦ elim (Bool-cases (b.nonce == max_nonce)) [
        | inl last ↦
            find_nonce_next fuel b d miss
            ∙ ap (λ (n : ℕ). find_nonce n (next_block b)) (last_turn b.nonce fuel enough last)
            ∙ find_nonce-zero (next_block b)
            ∙ ap solved (sym (solve_from_last undisturbed fuel turn b refl miss last))
        | inr more ↦
            find_nonce_next fuel b d miss
            ∙ find_nonce-solve_from fuel (suc turn) (next_block b) d
                (omega (arith, next_nonce b.nonce (omega arith) more))
            ∙ ap solved (sym (solve_from_next undisturbed fuel turn b refl miss more))
      ]
    ]

-- `Block` of the test helpers, on a previous block whose difficulty is in range, returns a block
-- exactly if `Solve`, disturbed by nothing, returns it without an error for the candidate that
-- `MineOnce` makes of the same time, previous block and transactions.
pub block-solve :
    (now : ℕ) (prev : Block) (ids : List Bytes) (t : Block)
    → check_difficulty prev.difficulty ≡ ok tt
    → (block now prev ids ≡ some t)
      ↔ (solve undisturbed (candidate now prev.difficulty prev (map message ids)) ≡ some (ok tt, t))
unfolding block solve
block-solve now prev ids t d =
    let b = candidate now prev.difficulty prev (map message ids) in
    let same : block now prev ids ≡ solved (solve undisturbed b) =
      find_nonce-solve_from (2 ^ 64) 0 b
        (ground (arith, (check_difficulty_iff prev.difficulty).0 d)) refl
      ∙ rw (d, solve) refl in
    let iff = solved_iff (solve undisturbed b) t in (λ h. iff.0 (sym same ∙ h), λ h. same ∙ iff.1 h)
