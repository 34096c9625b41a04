-- ===== src/Node/Process/CatchUp.antt =====
-- What a sync of the loop `Run` achieves with the peer that it asks first.
use mathlib.Core.Path.{ap₂}
use native.Mathlib.Nat.{mod-lt}
use distributed_p2p_ledger.Base.{
  ℕ, zero, suc, ◌+◌, ◌%◌, ◌≤◌, ◌<◌, ◌≡◌, ◌∙◌, inl, inr, Bool-cases, false, List, [], ◌∷◌, ◌++◌,
  Bytes, length, get_elem?, drop, take, arith, some, ok, ℤ,
}
use distributed_p2p_ledger.Models.Block.{Block}
use distributed_p2p_ledger.Models.Chain.{better_chain}
use distributed_p2p_ledger.Models.Chain.Choice.{better_chain_trans}
use distributed_p2p_ledger.Storage.Invariant.{IsLedgerChain}
use distributed_p2p_ledger.Storage.Replace.{Progresses}
use distributed_p2p_ledger.Gossip.{
  Engine, Answer, sync_chain, sync_pending, sync_peers, rotated_peers, resolve_conflicts,
}
use distributed_p2p_ledger.Gossip.Http.{get, max_response_bytes}
use distributed_p2p_ledger.Gossip.Invariant.{IsValidEngine, IsValidEngine-later}
use distributed_p2p_ledger.Gossip.Trace.{Run-trans, Run-Advances}
use distributed_p2p_ledger.Gossip.Trace.Syncs.{sync_chain-Run, sync_pending-Run, sync_peers-Run}
use distributed_p2p_ledger.Gossip.Agreement.{CanTake, sync_chain-catches_up}
use distributed_p2p_ledger.Gossip.Rotation.{advanced, head_rotated, resolve_conflicts-next}
use distributed_p2p_ledger.Node.Process.{Codecs, Process, waiting, sync_tick, process_run}
use distributed_p2p_ledger.Node.Process.Schedule.{
  Responses, peer_events, answer_of, sync_tick-resolve_conflicts,
}

-- A chain that is not preferred to another is not preferred to a better one.
Progresses-not_better :
    (chain old later : List Block)
    → better_chain chain old ≡ false
    → Progresses old later
    → better_chain chain later ≡ false
Progresses-not_better chain old later h (inl same) = rw same h
Progresses-not_better chain old later h (inr better) =
    elim (Bool-cases (better_chain chain later)) [
      | inr worse ↦ worse
      | inl preferred ↦ absurd (ground (arith, better_chain_trans chain later old preferred better))
    ]

head_cons :
    (xs : List Bytes) (x : Bytes) → get_elem? xs 0 ≡ some x → (rest : List Bytes) × (xs ≡ x ∷ rest)
head_cons [] x h = absurd (ground arith)
head_cons (y ∷ ys) x h = (ys, ground arith)

in_range : (xs : List Bytes) (i : ℕ) (x : Bytes) → get_elem? xs i ≡ some x → i < length xs
in_range [] i x h = absurd (ground arith)
in_range (y ∷ ys) zero x h = omega arith
in_range (y ∷ ys) (suc i) x h = omega (arith, in_range ys i x h)

-- The peer at the place of the next sync is asked first.
first_asked :
    (g : Engine) (peer : Bytes)
    → 0 < length g.peers
    → get_elem? g.peers (g.next_peer % length g.peers) ≡ some peer
    → (rest : List Bytes) × (rotated_peers g ≡ peer ∷ rest)
unfolding rotated_peers
first_asked g peer pos h =
    let start = g.next_peer % length g.peers in
    head_cons (drop start g.peers ++ take start g.peers) peer
      (head_rotated start g.peers (take start g.peers) (mod-lt g.next_peer pos) ∙ h)

module _ (horizon : ℕ) (answers : Bytes → Answer)
    (timely : (peer : Bytes) → (answers peer).env.now ≤ horizon) where
  -- A sync that begins with this peer ends with a chain that is no worse than the peer's.
  sync_peers-catches_up :
      (peer : Bytes) (rest : List Bytes) (chain : List Block) (g : Engine)
      → IsValidEngine (answers peer).env.now g
      → (answers peer).expired ≡ false
      → (answers peer).chain ≡ ok chain
      → IsLedgerChain (answers peer).env.now g.chain_store.difficulty chain
      → CanTake (answers peer).env chain g
      → better_chain chain (sync_peers answers (peer ∷ rest) g).chain_store.chain ≡ false
  unfolding sync_peers
  sync_peers-catches_up peer rest chain g v asked came ledger c =
      let a = answers peer in
      let t = sync_chain a.env a.chain g in
      let u = sync_pending a.env a.pending t in
      let no_better : better_chain chain t.chain_store.chain ≡ false =
        rw came (sync_chain-catches_up a.env chain g v ledger c).0 in
      let w = IsValidEngine-later a.env.now horizon g (timely peer) v in
      let before = Run-Advances horizon (sync_chain-Run horizon a.env a.chain g (timely peer)) w in
      let after =
        Run-Advances horizon
          (Run-trans (sync_pending-Run horizon a.env a.pending t)
            (sync_peers-Run horizon answers timely rest u))
          before.valid in
      rw (asked, sync_peers)
        (Progresses-not_better chain t.chain_store.chain
          (sync_peers answers rest u).chain_store.chain no_better after.chain)

module _ (horizon : ℕ) (codecs : Codecs) (d : ℤ) (responses : Bytes → Responses)
    (timely : (peer : Bytes) → (responses peer).env.now ≤ horizon) where
  abbrev answers : Bytes → Answer
  answers peer = answer_of codecs (responses peer)

  resolve_conflicts-first :
      (g : Engine) (peer : Bytes) (rest : List Bytes)
      → 0 < length g.peers
      → rotated_peers g ≡ peer ∷ rest
      → resolve_conflicts false answers g
        ≡ sync_peers answers
            (peer ∷ rest)
            (record g { next_peer = (g.next_peer % length g.peers + 1) % length g.peers })
  unfolding resolve_conflicts
  resolve_conflicts-first g peer rest pos h = ap₂ (sync_peers answers) h (advanced g pos)

  -- A sync that the ticker of `Run` begins, with no other events between its own and none past
  -- the horizon, on an engine that satisfies the invariant: if the peer at the place of the next
  -- sync is asked before the deadline and answers with a ledger, which the node can save and
  -- which leaves room in its pool for what it does not confirm, then, whatever it and the other
  -- peers answer besides, that ledger is not preferred to the chain of the node at the end, the
  -- peers are the same, the next sync begins one place further around their list, and the loop
  -- waits again.
  pub sync_tick-catches_up :
      (p : Process) (peer : Bytes) (chain : List Block)
      → p.sync ≡ waiting
      → IsValidEngine (responses peer).env.now p.engine
      → get_elem? p.engine.peers (p.engine.next_peer % length p.engine.peers) ≡ some peer
      → (responses peer).expired ≡ false
      → get codecs.chain max_response_bytes (responses peer).chain ≡ ok chain
      → IsLedgerChain (responses peer).env.now p.engine.chain_store.difficulty chain
      → CanTake (responses peer).env chain p.engine
      → (t : Engine) × (process_run codecs d
            (sync_tick ∷ peer_events codecs responses (rotated_peers p.engine))
            p
          ≡ record p { engine = t })
        × (better_chain chain t.chain_store.chain ≡ false)
        × (t.peers ≡ p.engine.peers)
        × (t.next_peer ≡ (p.engine.next_peer % length p.engine.peers + 1) % length p.engine.peers)
  sync_tick-catches_up p peer chain idle v first asked came ledger c =
      let g = p.engine in
      let pos : 0 < length g.peers =
        omega (arith, in_range g.peers (g.next_peer % length g.peers) peer first) in
      let (rest, order) = first_asked g peer pos first in
      let moved : Engine = record g {
        next_peer = (g.next_peer % length g.peers + 1) % length g.peers;
      } in
      let same = resolve_conflicts-first g peer rest pos order in
      let (peers, next) =
        resolve_conflicts-next horizon answers g timely
          (IsValidEngine-later (responses peer).env.now horizon g (timely peer) v) pos in
      (
        resolve_conflicts false answers g,
        sync_tick-resolve_conflicts codecs d responses p idle,
        rw same (
            sync_peers-catches_up horizon answers timely peer rest chain moved
              (record { store = v.store; pool = v.pool; apart = v.apart; jobs = v.jobs }) asked came
              ledger (record { io = c.io; fits = c.fits; pending = c.pending; room = c.room })),
        peers,
        next,
      )
