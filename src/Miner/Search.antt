-- ===== src/Miner/Search.antt =====
-- The loop of `Solve`.
use distributed_p2p_ledger.Base.{
  ℕ, zero, suc, ◌+◌, ◌-◌, ◌%◌, ◌^◌, ◌≤◌, ◌<◌, ◌≡◌, refl, ap, sym, ◌∙◌, inl, inr, Bool-cases, true,
  false, ◌==◌, arith, Option, none, some, Error, Result, Result-cases, ok, err, ==_iff, ◌⊎◌,
  canceled, tip_changed, nonce_space_exhausted,
}
use distributed_p2p_ledger.Models.Block.{Block, check_difficulty, calculate_hash}
use distributed_p2p_ledger.Models.Block.Hash.{calculate_hash-set_hash}
use distributed_p2p_ledger.Miner.{
  Signal, quiet, context_done, chain_changed, max_nonce, meets_target, solve_from, solve,
}

pub Signal-cases : (s : Signal) → (s ≡ quiet) ⊎ ((s ≡ context_done) ⊎ (s ≡ chain_changed))
Signal-cases quiet = inl refl
Signal-cases context_done = inr (inl refl)
Signal-cases chain_changed = inr (inr refl)

-- `b` with another nonce.
abbrev pub at_nonce : Block → ℕ → Block
at_nonce b n = record b { nonce = n }

-- `t` is `b` with the first nonce from its own on whose hash meets the target, and with that hash.
pub record Solved (b t : Block) : Type 0 where
  pub block : t ≡ record b { nonce = t.nonce; hash = t.hash }
  pub hash : t.hash ≡ calculate_hash t
  pub work : meets_target b t.hash ≡ true
  pub from_start : b.nonce ≤ t.nonce
  pub no_wrap : t.nonce < 2 ^ 64
  pub first :
      (n : ℕ) → b.nonce ≤ n → n < t.nonce → meets_target b (calculate_hash (at_nonce b n)) ≡ false

-- The block of the next turn.
abbrev pub next_block : Block → Block
next_block b = record b { hash = calculate_hash b; nonce = (b.nonce + 1) % 2 ^ 64 }

-- One turn of the loop that finds neither channel closed.
module _ (signals : ℕ → Signal) (fuel turn : ℕ) (b : Block) (q : signals turn ≡ quiet) where
  pub solve_from_hit :
      meets_target b (calculate_hash b) ≡ true
      → solve_from (suc fuel) signals turn b ≡ some (ok tt, record b { hash = calculate_hash b })
  unfolding solve_from
  solve_from_hit h = rw (q, h, solve_from) refl

  pub solve_from_last :
      meets_target b (calculate_hash b) ≡ false
      → (b.nonce == max_nonce) ≡ true
      → solve_from (suc fuel) signals turn b
        ≡ some (err nonce_space_exhausted, record b { hash = calculate_hash b })
  unfolding solve_from
  solve_from_last h n = rw (q, h, n, solve_from) refl

  pub solve_from_next :
      meets_target b (calculate_hash b) ≡ false
      → (b.nonce == max_nonce) ≡ false
      → solve_from (suc fuel) signals turn b ≡ solve_from fuel signals (suc turn) (next_block b)
  unfolding solve_from
  solve_from_next h n = rw (q, h, n, solve_from) refl

-- A turn that finds a channel closed.
solve_from_stopped :
    (signals : ℕ → Signal) (fuel turn : ℕ) (b : Block)
    → (signals turn ≡ context_done) ⊎ (signals turn ≡ chain_changed)
    → (e : Error) × (solve_from (suc fuel) signals turn b ≡ some (err e, b))
unfolding solve_from
solve_from_stopped signals fuel turn b (inl s) = (canceled, rw (s, solve_from) refl)
solve_from_stopped signals fuel turn b (inr s) = (tip_changed, rw (s, solve_from) refl)

pub next_nonce : (n : ℕ) → n < 2 ^ 64 → (n == max_nonce) ≡ false → (n + 1) % 2 ^ 64 ≡ n + 1
next_nonce n h e = ground arith

none-some : {r : Result (Unit {0}) × Block} → none ≡ some r → ⊥
none-some e = ground arith

err-ok :
    {e : Error} {b t : Block}
    → ◌≡◌ {A = Option (Result (Unit {0}) × Block)} (some (err e, b)) (some (ok tt, t))
    → ⊥
err-ok e = ground arith

block_eq :
    {b t : Block}
    → ◌≡◌ {A = Option (Result (Unit {0}) × Block)} (some (ok tt, b)) (some (ok tt, t))
    → b ≡ t
block_eq e = cc

module _ (signals : ℕ → Signal) where
  solve_from-zero : (turn : ℕ) (b : Block) → solve_from zero signals turn b ≡ none
  unfolding solve_from
  solve_from-zero turn b = refl

  solve_from-returns :
      (fuel turn : ℕ) (b : Block)
      → b.nonce < 2 ^ 64
      → 2 ^ 64 ≤ b.nonce + fuel
      → (r : Result (Unit {0}) × Block) × (solve_from fuel signals turn b ≡ some r)
  solve_from-returns zero turn b h enough = absurd (omega arith)
  solve_from-returns (suc fuel) turn b h enough = elim (Signal-cases (signals turn)) [
    | inr s ↦ let (e, stopped) = solve_from_stopped signals fuel turn b s in ((err e, b), stopped)
    | inl q ↦ elim (Bool-cases (meets_target b (calculate_hash b))) [
      | inl hit ↦ (_, solve_from_hit signals fuel turn b q hit)
      | inr miss ↦ elim (Bool-cases (b.nonce == max_nonce)) [
        | inl last ↦ (_, solve_from_last signals fuel turn b q miss last)
        | inr more ↦
            let n = next_nonce b.nonce h more in
            let (r, e) =
              solve_from-returns fuel (suc turn) (next_block b) (ground (arith, n))
                (omega (arith, n)) in
            (r, solve_from_next signals fuel turn b q miss more ∙ e)
      ]
    ]
  ]

  next-Solved :
      (b t : Block)
      → b.nonce < 2 ^ 64
      → meets_target b (calculate_hash b) ≡ false
      → (b.nonce == max_nonce) ≡ false
      → Solved (next_block b) t
      → Solved b t
  next-Solved b t h miss more s =
      let n = next_nonce b.nonce h more in
      record {
        block = s.block;
        hash = s.hash;
        work = s.work;
        from_start = omega (arith, n, s.from_start);
        no_wrap = s.no_wrap;
        first = λ m low high. elim (Bool-cases (m == b.nonce)) [
          | inl e ↦ rw ((==_iff m b.nonce).0 e) miss
          | inr e ↦
              ap (meets_target b) (sym (calculate_hash-set_hash (at_nonce b m) (calculate_hash b)))
              ∙ s.first m (ground (arith, n)) high
        ];
      }

  hit-Solved :
      (b t : Block)
      → b.nonce < 2 ^ 64
      → meets_target b (calculate_hash b) ≡ true
      → record b { hash = calculate_hash b } ≡ t
      → Solved b t
  hit-Solved b t h hit e = rw (sym e) (record {
    block = refl;
    hash = sym (calculate_hash-set_hash b (calculate_hash b));
    work = hit;
    from_start = omega arith;
    no_wrap = h;
    first = λ m low high. absurd (omega arith);
  })

  solve_from-Solved :
      (fuel turn : ℕ) (b t : Block)
      → b.nonce < 2 ^ 64
      → solve_from fuel signals turn b ≡ some (ok tt, t)
      → Solved b t
  solve_from-Solved zero turn b t h e = absurd (none-some (sym (solve_from-zero turn b) ∙ e))
  solve_from-Solved (suc fuel) turn b t h e = elim (Signal-cases (signals turn)) [
    | inr s ↦
        let (_, stopped) = solve_from_stopped signals fuel turn b s in
        absurd (err-ok (sym stopped ∙ e))
    | inl q ↦ elim (Bool-cases (meets_target b (calculate_hash b))) [
      | inl hit ↦
          hit-Solved b t h hit (block_eq (sym (solve_from_hit signals fuel turn b q hit) ∙ e))
      | inr miss ↦ elim (Bool-cases (b.nonce == max_nonce)) [
        | inl last ↦ absurd (err-ok (sym (solve_from_last signals fuel turn b q miss last) ∙ e))
        | inr more ↦ next-Solved b t h miss more (
            solve_from-Solved fuel (suc turn) (next_block b) t
              (ground (arith, next_nonce b.nonce h more))
              (sym (solve_from_next signals fuel turn b q miss more) ∙ e))
      ]
    ]
  ]

module _ (signals : ℕ → Signal) (b : Block) (h : b.nonce < 2 ^ 64) where
  -- `Solve`, on a block with a 64-bit nonce, ends with a result, whatever the channels do: as
  -- many turns as there are nonces left are enough.
  pub solve-returns : (r : Result (Unit {0}) × Block) × (solve signals b ≡ some r)
  unfolding solve
  solve-returns = elim (Result-cases (check_difficulty b.difficulty)) [
    | inl (_, d) ↦ rw (d, solve) (solve_from-returns signals (2 ^ 64 - b.nonce) 0 b h (omega arith))
    | inr (e, d) ↦ rw (d, solve) ((err e, b), refl)
  ]

  -- A block that `Solve` returns without an error, for a block with a 64-bit nonce, differs from
  -- the given one in nonce and hash only; the hash is that of the block and has the zeros that
  -- the difficulty asks for, and its nonce is the first from the given one on for which that is
  -- so.
  pub solve-Solved : (t : Block) → solve signals b ≡ some (ok tt, t) → Solved b t
  unfolding solve
  solve-Solved t e = elim (Result-cases (check_difficulty b.difficulty)) [
    | inl (_, d) ↦ solve_from-Solved signals (2 ^ 64 - b.nonce) 0 b t h (ground arith)
    | inr (e', d) ↦ absurd (ground arith)
  ]
