-- ===== src/Gossip/Rotation.antt =====
-- `ResolveConflicts`: the order in which the peers are asked, and the place where the next sync begins.
use mathlib.Core.List.{Perm, perm_append_comm}
use mathlib.Core.Path.{subst}
use native.Mathlib.Nat.{mod-add-mod, mod-lt}
use distributed_p2p_ledger.Base.{
  ℕ, zero, suc, ◌+◌, ◌%◌, ◌≤◌, ◌<◌, ◌≡◌, refl, ap, ◌∙◌, Bool-cases, inl, inr, false, List, [], ◌∷◌,
  ◌++◌, Bytes, length, arith, take, drop, take-append-drop, leb, ◌==◌, Result, Result-cases, ok,
  err, get_elem?,
}
use distributed_p2p_ledger.Models.Transaction.{Transaction}
use distributed_p2p_ledger.Models.Block.{Block}
use distributed_p2p_ledger.Models.Chain.{validate_chain}
use distributed_p2p_ledger.Mempool.{max_pending}
use distributed_p2p_ledger.Gossip.{
  Engine, Env, Answer, submit_transaction, sync_chain, submit_all, sync_pending, sync_peers,
  rotated_peers, advance_peer, resolve_conflicts,
}
use distributed_p2p_ledger.Gossip.Invariant.{
  IsValidEngine, SamePeers, SamePeers-refl, SamePeers-trans,
}
use distributed_p2p_ledger.Gossip.Submit.{submit_transaction-SamePeers}
use distributed_p2p_ledger.Gossip.Adopt.Keeps.{adopt-SamePeers}
use distributed_p2p_ledger.Gossip.Sync.{
  sync_chain-Advances, sync_pending-Advances, advance_peer-Advances, resolve_conflicts-Advances,
}

-- A sync asks every peer once, in some order.
pub rotated_peers-perm : (g : Engine) → Perm (rotated_peers g) g.peers
unfolding rotated_peers
rotated_peers-perm g =
    let start = g.next_peer % length g.peers in
    subst (λ (l : List Bytes). Perm (drop start g.peers ++ take start g.peers) l)
      (take-append-drop start g.peers) (perm_append_comm (drop start g.peers) (take start g.peers))

module _ (horizon : ℕ) where
  sync_chain-SamePeers :
      (env : Env) (r : Result (List Block)) (g : Engine)
      → IsValidEngine horizon g
      → SamePeers g (sync_chain env r g)
  unfolding sync_chain
  sync_chain-SamePeers env (err e) g v = SamePeers-refl g
  sync_chain-SamePeers env (ok chain) g v =
      elim (Result-cases (validate_chain env.now chain g.chain_store.difficulty)) [
        | inl (_, h) ↦ rw (h, sync_chain) (adopt-SamePeers env chain g v)
        | inr (e, h) ↦ rw (h, sync_chain) (SamePeers-refl g)
      ]

  submit_all-SamePeers :
      (env : Env) (txs : List (Transaction × List ℕ)) (g : Engine)
      → SamePeers g (submit_all env txs g)
  unfolding submit_all
  submit_all-SamePeers env [] g = SamePeers-refl g
  submit_all-SamePeers env ((tx, perm) ∷ txs) g =
      SamePeers-trans (submit_transaction-SamePeers (record env { perm = perm }) tx g)
        (submit_all-SamePeers env txs (submit_transaction (record env { perm = perm }) tx g).1)

  sync_pending-SamePeers :
      (env : Env) (r : Result (List (Transaction × List ℕ))) (g : Engine)
      → SamePeers g (sync_pending env r g)
  unfolding sync_pending
  sync_pending-SamePeers env (err e) g = SamePeers-refl g
  sync_pending-SamePeers env (ok txs) g = elim (Bool-cases (leb (length txs) max_pending)) [
    | inl h ↦ rw h (submit_all-SamePeers env txs g)
    | inr h ↦ rw h (SamePeers-refl g)
  ]

  module _ (answers : Bytes → Answer)
      (timely : (peer : Bytes) → (answers peer).env.now ≤ horizon) where
    sync_peers-SamePeers :
        (peers : List Bytes) (g : Engine)
        → IsValidEngine horizon g
        → SamePeers g (sync_peers answers peers g)
    unfolding sync_peers
    sync_peers-SamePeers [] g v = SamePeers-refl g
    sync_peers-SamePeers (peer ∷ peers) g v =
        let a = answers peer in
        let t = sync_chain a.env a.chain g in
        let first = sync_chain-Advances horizon a.env a.chain g (timely peer) v in
        let second = sync_pending-Advances horizon a.env a.pending t first.valid in
        elim (Bool-cases a.expired) [
          | inl h ↦ rw (h, sync_peers) (SamePeers-refl g)
          | inr h ↦
              rw (h, sync_peers)
                (SamePeers-trans (sync_chain-SamePeers a.env a.chain g v) (
                  SamePeers-trans (sync_pending-SamePeers a.env a.pending t)
                    (sync_peers-SamePeers peers (sync_pending a.env a.pending t) second.valid)))
        ]

-- Syncs one after another, none of which finds the sync lock taken.
pub syncs : List (Bytes → Answer) → Engine → Engine
syncs [] g = g
syncs (answers ∷ rounds) g = syncs rounds (resolve_conflicts false answers g)

-- No answer of these syncs is given after the horizon.
abbrev pub IsTimely : ℕ → List (Bytes → Answer) → Type 0
IsTimely horizon [] = Unit
IsTimely horizon (answers ∷ rounds) =
    ((peer : Bytes) → (answers peer).env.now ≤ horizon) × IsTimely horizon rounds

pub advanced :
    (g : Engine)
    → 0 < length g.peers
    → advance_peer g ≡ record g { next_peer = (g.next_peer % length g.peers + 1) % length g.peers }
unfolding advance_peer
advanced g h = elim (Bool-cases (length g.peers == 0)) [
  | inl e ↦ absurd (ground arith)
  | inr e ↦ rw e refl
]

places : (a k n : ℕ) → ((a % n + 1) % n + k) % n ≡ (a + suc k) % n
places a k n =
    mod-add-mod (a % n + 1) n k
    ∙ ap (λ (m : ℕ). m % n) (omega arith)
    ∙ mod-add-mod a n (1 + k)
    ∙ ap (λ (m : ℕ). (a + m) % n) (omega arith)

pub head_rotated :
    (s : ℕ) (xs ys : List Bytes) → s < length xs → get_elem? (drop s xs ++ ys) 0 ≡ get_elem? xs s
head_rotated zero (x ∷ xs) ys h = refl
head_rotated (suc s) (x ∷ xs) ys h = head_rotated s xs ys (omega arith)
head_rotated s [] ys h = absurd (omega arith)

module _ (horizon : ℕ) where
  -- One sync moves the place of the next one by one, around the list of peers.
  pub resolve_conflicts-next :
      (answers : Bytes → Answer) (g : Engine)
      → ((peer : Bytes) → (answers peer).env.now ≤ horizon)
      → IsValidEngine horizon g
      → 0 < length g.peers
      → ((resolve_conflicts false answers g).peers ≡ g.peers)
        × ((resolve_conflicts false answers g).next_peer
            ≡ (g.next_peer % length g.peers + 1) % length g.peers)
  unfolding resolve_conflicts
  resolve_conflicts-next answers g timely v pos =
      let moved = (advance_peer-Advances horizon g v).valid in
      let same =
        sync_peers-SamePeers horizon answers timely (rotated_peers g) (advance_peer g) moved in
      (
        same.peers ∙ ap (λ (t : Engine). t.peers) (advanced g pos),
        same.next_peer ∙ ap (λ (t : Engine). t.next_peer) (advanced g pos),
      )

  -- On an engine with peers that satisfies the invariant, and with clock readings up to the
  -- horizon: the sync after any number of syncs begins at the peer that is as many places further
  -- around the list.
  pub syncs-first_peer :
      (rounds : List (Bytes → Answer)) (g : Engine)
      → IsTimely horizon rounds
      → IsValidEngine horizon g
      → 0 < length g.peers
      → get_elem? (rotated_peers (syncs rounds g)) 0
        ≡ get_elem? g.peers ((g.next_peer + length rounds) % length g.peers)
  unfolding syncs rotated_peers
  syncs-first_peer [] g timely v pos =
      let start = g.next_peer % length g.peers in
      head_rotated start g.peers (take start g.peers) (mod-lt g.next_peer pos)
      ∙ ap (λ (s : ℕ). get_elem? g.peers (s % length g.peers)) (omega arith)
  syncs-first_peer (answers ∷ rounds) g timely v pos =
      let t = resolve_conflicts false answers g in
      let (peers, next) = resolve_conflicts-next answers g timely.0 v pos in
      let valid = (resolve_conflicts-Advances horizon answers timely.0 false g v).valid in
      let ih = syncs-first_peer rounds t timely.1 valid (rw peers pos) in
      ih
      ∙ rw (peers, next)
          (ap (get_elem? g.peers) (places g.next_peer (length rounds) (length g.peers)))
