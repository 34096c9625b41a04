-- ===== src/Ledger/Refines.antt =====
-- The engine, and a whole node, refine the ledger.
use distributed_p2p_ledger.Base.{
  ℕ, ◌≤◌, ◌≡◌, refl, ap, sym, ◌∙◌, inl, inr, Bool, true, false, ◌||◌, List, [], ◌∷◌, ◌++◌, Bytes,
  length, map, length-map, ◌==ₛ◌, eq_of_==ₛ, has, Distinct, Apart-ext, Apart-has, arith, All,
  Result-cases, ℤ,
}
use distributed_p2p_ledger.Models.Transaction.{Transaction}
use distributed_p2p_ledger.Models.Block.{Block, ids}
use distributed_p2p_ledger.Models.Chain.{chain_ids, better_chain}
use distributed_p2p_ledger.Models.Block.Validity.{IsValidBlock}
use distributed_p2p_ledger.Models.Chain.Validity.{IsLedger}
use distributed_p2p_ledger.Mempool.Invariant.{pending_ids}
use distributed_p2p_ledger.Storage.{clone_chain}
use distributed_p2p_ledger.Storage.Append.{Appended}
use distributed_p2p_ledger.Storage.Invariant.{IsLedgerChain, ledger-ids}
use distributed_p2p_ledger.Storage.Replace.{Replaced, Progresses}
use distributed_p2p_ledger.Gossip.{Engine, Env, submit_transaction, handle_incoming_block, adopt}
use distributed_p2p_ledger.Gossip.Invariant.{IsValidEngine, knows}
use distributed_p2p_ledger.Gossip.Submit.{
  submit_transaction-ok, submit_transaction_failed, submit_transaction-IsValidEngine,
}
use distributed_p2p_ledger.Gossip.Receive.{handle_incoming_block-ok}
use distributed_p2p_ledger.Gossip.Receive.Keeps.{handle_incoming_block_failed}
use distributed_p2p_ledger.Gossip.Adopt.{adopt-ok, chain_ids-clone_chain}
use distributed_p2p_ledger.Gossip.Adopt.Keeps.{adopt_failed, adopt-Progresses}
use distributed_p2p_ledger.Gossip.{advance_peer, request_sync}
use distributed_p2p_ledger.Gossip.Trace.{
  Step, Run, Run-Advances, here, next, submits, receives, adopts, begins, requests, clears, takes,
  clear_sync, take_job,
}
use distributed_p2p_ledger.Node.Process.{Codecs, Event, Process, process_run}
use distributed_p2p_ledger.Node.Process.Safe.{clock, process_run-Run}
use distributed_p2p_ledger.Ledger.{
  Books, held, confirmed, all_ids, Move, Moves, stays, takes_in, confirms, reorganises, start, then,
  Keeps, Moves-Keeps, IsSound,
}

abbrev pub books : Engine → Books
books g = record {
  pending = λ k. has (pending_ids g.mempool) k;
  blocks = map ids g.chain_store.chain;
}

all_ids-chain_ids : (chain : List Block) → all_ids (map ids chain) ≡ chain_ids chain
all_ids-chain_ids [] = refl
all_ids-chain_ids (b ∷ chain) = ap (◌++◌ (ids b)) (all_ids-chain_ids chain)

map-append : (xs ys : List Block) → map ids (xs ++ ys) ≡ map ids xs ++ map ids ys
map-append [] ys = refl
map-append (x ∷ xs) ys = ap (λ (l : List (List Bytes)). ids x ∷ l) (map-append xs ys)

-- What is indexed is what the blocks hold.
indexed_ids :
    {horizon : ℕ} (g : Engine) (k : Bytes)
    → IsValidEngine horizon g
    → has (all_ids (map ids g.chain_store.chain)) k ≡ has g.chain_store.tx_ids k
indexed_ids g k v =
    ap (λ (l : List Bytes). has l k) (all_ids-chain_ids g.chain_store.chain)
    ∙ sym (v.store.indexed k)

ledger-Distinct :
    (now : ℕ) (d : ℤ) (chain : List Block) → IsLedgerChain now d chain → Distinct (chain_ids chain)
ledger-Distinct now d [] l = absurd l
ledger-Distinct now d (first ∷ chain) l =
    rw (ledger-ids now d first chain l) (IsLedger.distinct_ids l)

pub books-IsSound : {horizon : ℕ} (g : Engine) → IsValidEngine horizon g → IsSound (books g)
books-IsSound {horizon} g v = record {
  distinct =
      rw (all_ids-chain_ids g.chain_store.chain)
        (ledger-Distinct horizon g.chain_store.difficulty g.chain_store.chain v.store.ledger);
  apart =
      λ k h. indexed_ids g k v ∙ Apart-has (pending_ids g.mempool) g.chain_store.tx_ids k v.apart h;
}

pub held-knows :
    {horizon : ℕ} (g : Engine) (k : Bytes) → IsValidEngine horizon g → held (books g) k ≡ knows g k
held-knows g k v = ap (λ (x : Bool). has (pending_ids g.mempool) k || x) (indexed_ids g k v)

right_false : (a b : Bool) → (a || b) ≡ false → b ≡ false
right_false a b h = ground arith

-- Of two sets that share nothing, one grows by an ID that is in neither.
gained :
    (after c new before : Bool)
    → (after || c) ≡ (new || (before || c))
    → (after ≡ true → c ≡ false)
    → (before ≡ true → c ≡ false)
    → (new ≡ true → c ≡ false)
    → after ≡ (new || before)
gained after c new before h p q r = ground arith

confirmed-clone :
    (t : Engine) (chain : List Block)
    → t.chain_store.chain ≡ clone_chain chain
    → (k : Bytes) → confirmed (books t) k ≡ has (chain_ids chain) k
confirmed-clone t chain e k =
    ap (λ (l : List Bytes). has l k)
      (all_ids-chain_ids t.chain_store.chain ∙ ap chain_ids e ∙ chain_ids-clone_chain chain)

better-length : (a b : List Block) → better_chain a b ≡ true → length b ≤ length a
unfolding better_chain
better-length a b h = ground arith

progress-length : (a b : List Block) → Progresses a b → length (map ids a) ≤ length (map ids b)
progress-length a b (inl e) = rw e (omega arith)
progress-length a b (inr h) = rw (length-map ids a, length-map ids b) (better-length b a h)

module _ {horizon : ℕ} (g : Engine) (v : IsValidEngine horizon g) where
  submit_transaction-Move :
      (env : Env) (tx : Transaction) → Move (books g) (books (submit_transaction env tx g).1)
  submit_transaction-Move env tx = elim (Result-cases (submit_transaction env tx g).0) [
    | inr (e, h) ↦ rw (submit_transaction_failed env tx g e h) (stays refl (λ k. refl))
    | inl (_, h) ↦
        let t = (submit_transaction env tx g).1 in
        let (_, fresh, gains, store) = submit_transaction-ok env tx g h in
        let after = submit_transaction-IsValidEngine horizon env tx g v in
        takes_in tx.id (held-knows g tx.id v ∙ fresh) (rw store refl) (λ k.
          let c = has g.chain_store.tx_ids k in
          let same : has t.chain_store.tx_ids k ≡ c = rw store refl in
          let now_apart : has (pending_ids t.mempool) k ≡ true → c ≡ false = λ p.
            sym same ∙ Apart-has (pending_ids t.mempool) t.chain_store.tx_ids k after.apart p in
          let new_id : (tx.id ==ₛ k) ≡ true → c ≡ false = λ e.
            ap (has g.chain_store.tx_ids) (sym (eq_of_==ₛ tx.id k e))
            ∙ right_false (has (pending_ids g.mempool) tx.id) (has g.chain_store.tx_ids tx.id)
                fresh in
          gained (has (pending_ids t.mempool) k) c (tx.id ==ₛ k) (has (pending_ids g.mempool) k)
            (ap (λ (x : Bool). has (pending_ids t.mempool) k || x) (sym same) ∙ gains k) now_apart
            (Apart-has (pending_ids g.mempool) g.chain_store.tx_ids k v.apart) new_id)
  ]

  handle_incoming_block-Move :
      (env : Env) (b : Block) → Move (books g) (books (handle_incoming_block env b g).1)
  handle_incoming_block-Move env b = elim (Result-cases (handle_incoming_block env b g).0) [
    | inr (e, h) ↦
        let (store, pool, _) = handle_incoming_block_failed env b g e h in
        stays (rw store.chain refl) (λ k. rw pool refl)
    | inl (_, h) ↦
        let (prev, x, a) = handle_incoming_block-ok env b g v h in
        confirms (ids b) (IsValidBlock.distinct_ids x.valid)
          (Apart-ext (ids b) g.chain_store.tx_ids (all_ids (map ids g.chain_store.chain))
            (λ k. indexed_ids g k v) x.new_ids)
          (rw (Appended.chain a.appended) (map-append g.chain_store.chain (b ∷ []))) a.pending
  ]

  adopt-Move : (env : Env) (chain : List Block) → Move (books g) (books (adopt env chain g).1)
  adopt-Move env chain = elim (Result-cases (adopt env chain g).0) [
    | inr (e, h) ↦
        let (store, pool, _) = adopt_failed env chain g v e h in
        stays (rw store.chain refl) (λ k. rw pool refl)
    | inl (_, h) ↦
        let (better, ledger, a) = adopt-ok env chain g v h in
        let t = (adopt env chain g).1 in
        let chain_now : t.chain_store.chain ≡ clone_chain chain = Replaced.chain a.replaced in
        let now_confirmed = λ (k : Bytes). confirmed-clone t chain chain_now k in
        reorganises
          (rw (chain_now, all_ids-chain_ids (clone_chain chain))
            (ledger-Distinct env.now g.chain_store.difficulty (clone_chain chain) ledger))
          (progress-length g.chain_store.chain t.chain_store.chain (adopt-Progresses env chain g v))
          (λ k. rw (now_confirmed k, held-knows g k v) (a.pending k))
  ]

same-Move :
    (g t : Engine)
    → t.chain_store ≡ g.chain_store
    → t.mempool ≡ g.mempool
    → Move (books g) (books t)
same-Move g t store pool = stays (rw store refl) (λ k. rw pool refl)

module _ (horizon : ℕ) where
  Step-Move : {g t : Engine} → Step horizon g t → IsValidEngine horizon g → Move (books g) (books t)
  unfolding advance_peer request_sync
  Step-Move {g} {t} (submits env tx) v = submit_transaction-Move g v env tx
  Step-Move {g} {t} (receives env b le) v = handle_incoming_block-Move g v env b
  Step-Move {g} {t} (adopts env chain le) v = adopt-Move g v env chain
  Step-Move {g} {t} begins v = same-Move g (advance_peer g) (ground arith) (ground arith)
  Step-Move {g} {t} requests v = same-Move g (request_sync g) refl refl
  Step-Move {g} {t} clears v = same-Move g (clear_sync g) refl refl
  Step-Move {g} {t} (takes job jobs e) v = same-Move g (take_job jobs g) refl refl

  pub Run-Moves :
      {g t : Engine} → Run horizon g t → IsValidEngine horizon g → Moves (books g) (books t)
  Run-Moves {g} {t} here v = start
  Run-Moves {g} {t} (next run step) v =
      then (Run-Moves run v) (Step-Move step (Run-Advances horizon run v).valid)

-- Every interleaving of what the HTTP server, the sync, the miner and the workers do, from an
-- engine that satisfies the invariant and with clock readings up to the horizon, is a sequence of
-- moves of the abstract ledger: an ID that is new becomes pending, a block of IDs that no block
-- has is added, or other blocks, at least as many and with no ID twice, take the place of those
-- that were there and all else that was held is pending.
pub process_run-Moves :
    (horizon : ℕ) (codecs : Codecs) (d : ℤ) (es : List Event) (p : Process)
    → All (λ (e : Event). clock e ≤ horizon) es
    → IsValidEngine horizon p.engine
    → Moves (books p.engine) (books (process_run codecs d es p).engine)
process_run-Moves horizon codecs d es p le v =
    Run-Moves horizon (process_run-Run horizon codecs d es p le) v

-- After every such interleaving: no ID is in the blocks twice, none is both pending and in a
-- block, every ID that was pending or in a block is still so, and there are at least as many
-- blocks as before.
pub process_run-Keeps :
    (horizon : ℕ) (codecs : Codecs) (d : ℤ) (es : List Event) (p : Process)
    → All (λ (e : Event). clock e ≤ horizon) es
    → IsValidEngine horizon p.engine
    → Keeps (books p.engine) (books (process_run codecs d es p).engine)
process_run-Keeps horizon codecs d es p le v =
    Moves-Keeps (process_run-Moves horizon codecs d es p le v) (books-IsSound p.engine v)
