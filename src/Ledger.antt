-- ===== src/Ledger.antt =====
-- The ledger that a node keeps, without its representation: which IDs are pending, and the IDs of each
-- block. This is what the engine of Gossip_Engine/gossip.go promises with its pool and its store.
pub mod Refines
use distributed_p2p_ledger.Base.{
  ℕ, ◌+◌, ◌≤◌, ◌≡◌, refl, ap, sym, ◌∙◌, Bool, true, false, not, ◌&&◌, ◌||◌, List, [], ◌∷◌, ◌++◌,
  Bytes, length, length-append, ◌==ₛ◌, ==ₛ_refl, eq_of_==ₛ, has, has-nil, has-append, Distinct,
  Distinct-append, Apart, Apart-has, Apart-symm, append-nil, append_assoc, arith,
}

pub record Books : Type 0 where
  pub pending : Bytes → Bool
  pub blocks : List (List Bytes)

abbrev pub all_ids : List (List Bytes) → List Bytes
all_ids [] = []
all_ids (ids ∷ blocks) = ids ++ all_ids blocks

abbrev pub confirmed : Books → Bytes → Bool
confirmed a k = has (all_ids a.blocks) k

abbrev pub held : Books → Bytes → Bool
held a k = a.pending k || confirmed a k

-- Nothing happens; a new ID becomes pending; a block of IDs that no block has is added, and they are no
-- longer pending; or other blocks, at least as many and no ID in two of them, take the place of those
-- that were there, and what was held and is not in them is pending.
pub data Move (a b : Books) : Type 0 where
  stays : b.blocks ≡ a.blocks → ((k : Bytes) → b.pending k ≡ a.pending k) → Move a b
  takes_in :
      (new : Bytes)
      → held a new ≡ false
      → b.blocks ≡ a.blocks
      → ((k : Bytes) → b.pending k ≡ ((new ==ₛ k) || a.pending k))
      → Move a b
  confirms :
      (ids : List Bytes)
      → Distinct ids
      → Apart ids (all_ids a.blocks)
      → b.blocks ≡ a.blocks ++ ids ∷ []
      → ((k : Bytes) → b.pending k ≡ (not (has ids k) && a.pending k))
      → Move a b
  reorganises :
      Distinct (all_ids b.blocks)
      → length a.blocks ≤ length b.blocks
      → ((k : Bytes) → b.pending k ≡ (held a k && not (confirmed b k)))
      → Move a b

pub data Moves (a : Books) : Books → Type 0 where
  start : Moves a a
  then : {b c : Books} → Moves a b → Move b c → Moves a c

pub Moves-trans : {a b c : Books} → Moves a b → Moves b c → Moves a c
Moves-trans m start = m
Moves-trans m (then n step) = then (Moves-trans m n) step

-- No ID is confirmed twice, and none is both pending and confirmed.
pub record IsSound (a : Books) : Type 0 where
  pub distinct : Distinct (all_ids a.blocks)
  pub apart : (k : Bytes) → a.pending k ≡ true → confirmed a k ≡ false

-- The books `b` hold all that `a` held, in as many blocks or more.
pub record Keeps (a b : Books) : Type 0 where
  pub sound : IsSound b
  pub holds : (k : Bytes) → held a k ≡ true → held b k ≡ true
  pub longer : length a.blocks ≤ length b.blocks

all_ids-snoc :
    (xs : List (List Bytes)) (ids : List Bytes) → all_ids (xs ++ ids ∷ []) ≡ all_ids xs ++ ids
all_ids-snoc [] ids = append-nil ids
all_ids-snoc (x ∷ xs) ids =
    ap (◌++◌ x) (all_ids-snoc xs ids) ∙ sym (append_assoc x (all_ids xs) ids)

has-snoc :
    (xs : List (List Bytes)) (ids : List Bytes) (k : Bytes)
    → has (all_ids (xs ++ ids ∷ [])) k ≡ (has (all_ids xs) k || has ids k)
has-snoc xs ids k = rw (all_ids-snoc xs ids) (has-append (all_ids xs) ids k)

module _ (a b : Books) where
  Move-Keeps : Move a b → IsSound a → Keeps a b
  Move-Keeps (stays blocks same) s = record {
    sound = record {
      distinct = rw blocks s.distinct;
      apart = λ k h. rw blocks (s.apart k (sym (same k) ∙ h));
    };
    holds = λ k h. rw (blocks, same k) h;
    longer = rw blocks (omega arith);
  }
  Move-Keeps (takes_in new fresh blocks more) s = record {
    sound = record {
      distinct = rw blocks s.distinct;
      apart = λ k h. rw blocks (ground (arith, more k, s.apart k, eq_of_==ₛ new k));
    };
    holds = λ k h. rw (blocks, more k) (ground arith);
    longer = rw blocks (omega arith);
  }
  Move-Keeps (confirms ids d apart blocks less) s =
      let more = λ (k : Bytes). has-snoc a.blocks ids k in
      record {
        sound = record {
          distinct =
              rw (blocks, all_ids-snoc a.blocks ids)
                ((Distinct-append (all_ids a.blocks) ids).1
                  (s.distinct, d, Apart-symm ids (all_ids a.blocks) apart));
          apart = λ k h. rw blocks (ground (arith, more k, less k, s.apart k));
        };
        holds = λ k h. rw (blocks, less k, more k) (ground arith);
        longer = rw blocks (omega (arith, length-append a.blocks (ids ∷ [])));
      }
  Move-Keeps (reorganises d long rest) s = record {
    sound = record { distinct = d; apart = λ k h. ground (arith, rest k) };
    holds = λ k h. rw (rest k) (ground arith);
    longer = long;
  }

pub Moves-Keeps : {a b : Books} → Moves a b → IsSound a → Keeps a b
Moves-Keeps {a} start s = record { sound = s; holds = λ k h. h; longer = omega arith }
Moves-Keeps {a} {b = c} (then {b} m step) s =
    let before = Moves-Keeps m s in
    let last = Move-Keeps b c step before.sound in
    record {
      sound = last.sound;
      holds = λ k h. last.holds k (before.holds k h);
      longer = omega (arith, before.longer, last.longer);
    }
