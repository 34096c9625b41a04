-- ===== src/Gossip/Peers/Listed.antt =====
-- The peers that `NewGossipEngine` takes from the lines of the file.
use distributed_p2p_ledger.Base.{
  ◌≤◌, ◌≡◌, refl, sym, ◌∙◌, inl, inr, Bool, Bool-cases, true, false, ◌||◌, List, [], ◌∷◌, ◌++◌,
  Bytes, length, ltb, ◌==ₛ◌, ==ₛ_refl, has, has-nil, has-cons, has-append, Distinct,
  Distinct-append, Apart-symm, All, All-append, arith, Option, some, Error, Result, ok, err,
  >>=-eq-ok, invalid_peer_url, too_many_peers,
}
use distributed_p2p_ledger.Text.{trim_right_byte}
use distributed_p2p_ledger.Mempool.{Mempool}
use distributed_p2p_ledger.Storage.{Store}
use distributed_p2p_ledger.Gossip.{Engine, new_local_engine}
use distributed_p2p_ledger.Gossip.Peers.{
  Url, max_peers, split_lines, is_peer_url, peer_of, is_blank, add_peers, load_peers,
  new_gossip_engine,
}

-- A list of at most 32 other nodes, each once and under a proper URL.
pub record IsPeerList (parse : Bytes → Option Url) (own : Bytes) (peers : List Bytes) : Type 0 where
  pub distinct : Distinct peers
  pub other : has peers own ≡ false
  pub few : length peers ≤ max_peers
  pub urls : All (λ (p : Bytes). is_peer_url (parse p) ≡ true) peers

-- What a line holds is in the list, unless it is blank.
abbrev pub IsListed : Bytes → List Bytes → Bytes → Type 0
IsListed own peers line = (is_blank own (peer_of line) || has peers (peer_of line)) ≡ true

-- One turn of the loop, on each branch.
module _ (parse : Bytes → Option Url) (own : Bytes) (seen peers : List Bytes) (line : Bytes)
    (lines : List Bytes) where
  add_peers-skip :
      (is_blank own (peer_of line) || has seen (peer_of line)) ≡ true
      → add_peers parse own seen peers (line ∷ lines) ≡ add_peers parse own seen peers lines
  unfolding add_peers
  add_peers-skip h = rw (h, add_peers) refl

  add_peers-bad :
      (is_blank own (peer_of line) || has seen (peer_of line)) ≡ false
      → is_peer_url (parse (peer_of line)) ≡ false
      → add_peers parse own seen peers (line ∷ lines) ≡ err (invalid_peer_url (peer_of line))
  unfolding add_peers
  add_peers-bad h url = rw (h, url, add_peers) refl

  add_peers-many :
      (is_blank own (peer_of line) || has seen (peer_of line)) ≡ false
      → is_peer_url (parse (peer_of line)) ≡ true
      → ltb max_peers (length (peers ++ peer_of line ∷ [])) ≡ true
      → add_peers parse own seen peers (line ∷ lines) ≡ err too_many_peers
  unfolding add_peers
  add_peers-many h url many = rw (h, url, many, add_peers) refl

  add_peers-more :
      (is_blank own (peer_of line) || has seen (peer_of line)) ≡ false
      → is_peer_url (parse (peer_of line)) ≡ true
      → ltb max_peers (length (peers ++ peer_of line ∷ [])) ≡ false
      → add_peers parse own seen peers (line ∷ lines)
        ≡ add_peers parse own (peer_of line ∷ seen) (peers ++ peer_of line ∷ []) lines
  unfolding add_peers
  add_peers-more h url few = rw (h, url, few, add_peers) refl

or-left : (a b : Bool) → (a || b) ≡ false → a ≡ false
or-left a b h = ground arith

or-right : (a b : Bool) → (a || b) ≡ false → b ≡ false
or-right a b h = ground arith

err-ok : {A : Type 0} {e : Error} {a : A} → ◌≡◌ {A = Result A} (err e) (ok a) → ⊥
err-ok h = cc

has-last : (peers : List Bytes) (peer : Bytes) → has (peers ++ peer ∷ []) peer ≡ true
has-last peers peer =
    ground (arith, has-append peers (peer ∷ []) peer, has-cons peer [] peer, ==ₛ_refl peer)

has-both :
    (seen peers : List Bytes) (peer : Bytes)
    → ((k : Bytes) → has seen k ≡ has peers k)
    → (k : Bytes) → has (peer ∷ seen) k ≡ has (peers ++ peer ∷ []) k
has-both seen peers peer same k = ground (
  arith,
  same k,
  has-append peers (peer ∷ []) k,
  has-cons peer seen k,
  has-cons peer [] k,
  has-nil k,
)

listed_skip :
    (own : Bytes) (out seen peers : List Bytes) (peer : Bytes)
    → ((k : Bytes) → has seen k ≡ has peers k)
    → ((k : Bytes) → has peers k ≡ true → has out k ≡ true)
    → (is_blank own peer || has seen peer) ≡ true
    → (is_blank own peer || has out peer) ≡ true
listed_skip own out seen peers peer same kept h = ground (arith, same peer, kept peer)

listed_new :
    (own : Bytes) (out : List Bytes) (peer : Bytes)
    → has out peer ≡ true
    → (is_blank own peer || has out peer) ≡ true
listed_new own out peer h = ground arith

module _ (parse : Bytes → Option Url) (own : Bytes) where
  append-IsPeerList :
      (peer : Bytes) (peers : List Bytes)
      → is_blank own peer ≡ false
      → has peers peer ≡ false
      → is_peer_url (parse peer) ≡ true
      → ltb max_peers (length (peers ++ peer ∷ [])) ≡ false
      → IsPeerList parse own peers
      → IsPeerList parse own (peers ++ peer ∷ [])
  append-IsPeerList peer peers blank new url few l = record {
    distinct =
        (Distinct-append peers (peer ∷ [])).1
          (l.distinct, (has-nil peer, tt), Apart-symm (peer ∷ []) peers (new, tt));
    other =
        ground
          (arith, has-append peers (peer ∷ []) own, has-cons peer [] own, has-nil own, l.other);
    few = ground arith;
    urls =
        All-append (λ (p : Bytes). is_peer_url (parse p) ≡ true) peers (peer ∷ []) l.urls (url, tt);
  }

  -- What the loop does to a list of peers.
  record Grown (peers out : List Bytes) (lines : List Bytes) : Type 0 where
    valid : IsPeerList parse own out
    kept : (k : Bytes) → has peers k ≡ true → has out k ≡ true
    listed : All (IsListed own out) lines

  add_peers-Grown :
      (seen peers lines : List Bytes) {out : List Bytes}
      → ((k : Bytes) → has seen k ≡ has peers k)
      → IsPeerList parse own peers
      → add_peers parse own seen peers lines ≡ ok out
      → Grown peers out lines
  unfolding add_peers
  add_peers-Grown seen peers [] {out} same l h =
      let e : peers ≡ out = ground arith in
      rw (← e) (record { valid = l; kept = λ k m. m; listed = tt })
  add_peers-Grown seen peers (line ∷ lines) {out} same l h =
      let peer = peer_of line in
      elim (Bool-cases (is_blank own peer || has seen peer)) [
        | inl skip ↦
            let rest =
              add_peers-Grown seen peers lines same l
                (sym (add_peers-skip parse own seen peers line lines skip) ∙ h) in
            record {
              valid = rest.valid;
              kept = rest.kept;
              listed =
                  (listed_skip own out seen peers (peer_of line) same rest.kept skip, rest.listed);
            }
        | inr use_it ↦ elim (Bool-cases (is_peer_url (parse peer))) [
          | inr bad ↦
              absurd (err-ok (sym (add_peers-bad parse own seen peers line lines use_it bad) ∙ h))
          | inl url ↦ elim (Bool-cases (ltb max_peers (length (peers ++ peer ∷ [])))) [
            | inl many ↦
                absurd (
                  err-ok (sym (add_peers-many parse own seen peers line lines use_it url many) ∙ h))
            | inr few ↦
                let l' =
                  append-IsPeerList peer peers (or-left (is_blank own peer) (has seen peer) use_it)
                    (sym (same peer) ∙ or-right (is_blank own peer) (has seen peer) use_it) url few
                    l in
                let rest =
                  add_peers-Grown (peer ∷ seen) (peers ++ peer ∷ []) lines
                    (has-both seen peers peer same) l'
                    (sym (add_peers-more parse own seen peers line lines use_it url few) ∙ h) in
                record {
                  valid = rest.valid;
                  kept = λ k m. rest.kept k (ground (arith, has-append peers (peer ∷ []) k));
                  listed =
                      (listed_new own out peer (rest.kept peer (has-last peers peer)), rest.listed);
                }
          ]
        ]
      ]

load_peers-IsPeerList :
    (parse : Bytes → Option Url) (raw : Bytes) (start : Engine) {g : Engine}
    → load_peers parse (some raw) start ≡ ok g
    → IsPeerList parse g.node_addr g.peers
      × All (IsListed g.node_addr g.peers) (split_lines raw)
      × (g.node_addr ≡ start.node_addr)
unfolding load_peers
load_peers-IsPeerList parse raw start {g} h =
    let own = start.node_addr in
    let (peers, added, e) = >>=-eq-ok (add_peers parse own [] [] (split_lines raw)) _ h in
    let grown =
      add_peers-Grown parse own [] [] (split_lines raw) (λ k. refl)
        (record { distinct = tt; other = has-nil own; few = omega arith; urls = tt }) added in
    let same : record start { peers = peers } ≡ g = ground arith in
    rw (← same) (grown.valid, grown.listed, refl)

engine_of_file :
    (parse : Bytes → Option Url) (file : Bytes) (content : Option Bytes) (addr : Bytes)
    (mp : Mempool) (cs : Store)
    → (file ==ₛ []) ≡ false
    → new_gossip_engine parse file content addr mp cs
      ≡ load_peers parse content
          (record (new_local_engine mp cs) { node_addr = trim_right_byte b'/' addr })
unfolding new_gossip_engine
engine_of_file parse file content addr mp cs named = rw (named, new_gossip_engine) refl

-- An engine that `NewGossipEngine` makes from a peers file knows at most 32 peers, each once and
-- under a proper URL, and not itself; what a line of the file holds is one of them, unless it is
-- empty, a comment or the node itself; and the node's address is the given one without slashes at
-- its end.
pub new_gossip_engine-IsPeerList :
    (parse : Bytes → Option Url) (file raw addr : Bytes) (mp : Mempool) (cs : Store) {g : Engine}
    → (file ==ₛ []) ≡ false
    → new_gossip_engine parse file (some raw) addr mp cs ≡ ok g
    → IsPeerList parse g.node_addr g.peers
      × All (IsListed g.node_addr g.peers) (split_lines raw)
      × (g.node_addr ≡ trim_right_byte b'/' addr)
new_gossip_engine-IsPeerList parse file raw addr mp cs {g} named h =
    load_peers-IsPeerList parse raw
      (record (new_local_engine mp cs) { node_addr = trim_right_byte b'/' addr })
      (sym (engine_of_file parse file (some raw) addr mp cs named) ∙ h)
