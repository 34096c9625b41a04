-- ===== src/Gossip/Peers.antt =====
-- `NewGossipEngine`: the peers file. url.Parse is an argument.
pub mod Listed
use distributed_p2p_ledger.Base.{
  ℕ, ◌≤◌, ◌≡◌, refl, sym, ◌∙◌, inl, inr, Bool, Bool-cases, true, false, not, ◌&&◌, ◌||◌, List, [],
  ◌∷◌, ◌++◌, Bytes, codes, length, ltb, ◌==◌, ◌==ₛ◌, ==ₛ_refl, has, has-nil, has-cons, has-append,
  has_prefix, Distinct, Distinct-append, Apart-symm, All, All-append, arith, Option, none, some,
  Error, Result, ok, err, ◌>>=◌, >>=-eq-ok, invalid_peer_url, too_many_peers, read_peers,
}
use distributed_p2p_ledger.Text.{trim_space, trim_right_byte}
use distributed_p2p_ledger.Mempool.{Mempool}
use distributed_p2p_ledger.Storage.{Store}
use distributed_p2p_ledger.Gossip.{Engine, new_local_engine}

abbrev pub max_peers : ℕ
max_peers = 32

-- What `NewGossipEngine` asks of a parsed URL.
pub record Url : Type 0 where
  pub scheme : Bytes
  pub hostname : Bytes
  pub has_user : Bool
  pub path : Bytes
  pub raw_query : Bytes
  pub fragment : Bytes

-- strings.Split(s, "\n"), with the part of the current line that was read.
split_from : Bytes → Bytes → List Bytes
split_from line [] = line ∷ []
split_from line (c ∷ s) = elim (c == 10) [
  | true ↦ line ∷ split_from [] s
  | false ↦ split_from (line ++ c ∷ []) s
]

unfoldable pub split_lines : Bytes → List Bytes
unfolding split_from
split_lines s = split_from [] s

unfoldable pub is_peer_url : Option Url → Bool
is_peer_url none = false
is_peer_url (some u) =
    (u.scheme ==ₛ codes "http" || u.scheme ==ₛ codes "https")
    && not (u.hostname ==ₛ [])
    && not u.has_user
    && (u.path ==ₛ [])
    && (u.raw_query ==ₛ [])
    && (u.fragment ==ₛ [])

-- The peer of a line: without white space around it and slashes at its end.
abbrev pub peer_of : Bytes → Bytes
peer_of line = trim_right_byte b'/' (trim_space line)

-- A peer that adds nothing: an empty line, a comment, or the node itself.
abbrev pub is_blank : Bytes → Bytes → Bool
is_blank own peer = (peer ==ₛ []) || has_prefix peer (codes "#") || (peer ==ₛ own)

-- The loop over the lines, with the set `seen` and the peers so far.
unfoldable pub add_peers :
    (Bytes → Option Url) → Bytes → List Bytes → List Bytes → List Bytes → Result (List Bytes)
add_peers parse own seen peers [] = ok peers
add_peers parse own seen peers (line ∷ lines) =
    let peer = peer_of line in
    elim (is_blank own peer || has seen peer) [
      | true ↦ add_peers parse own seen peers lines
      | false ↦ elim (is_peer_url (parse peer)) [
        | false ↦ err (invalid_peer_url peer)
        | true ↦ elim (ltb max_peers (length (peers ++ peer ∷ []))) [
          | true ↦ err too_many_peers
          | false ↦ add_peers parse own (peer ∷ seen) (peers ++ peer ∷ []) lines
        ]
      ]
    ]

-- The part of `NewGossipEngine` for a peers file, for which os.ReadFile returns `content`.
unfoldable pub load_peers : (Bytes → Option Url) → Option Bytes → Engine → Result Engine
load_peers parse none g = err read_peers
load_peers parse (some raw) g = do
  peers ← add_peers parse g.node_addr [] [] (split_lines raw)
  ok (record g { peers = peers })

-- `file` is the name of the peers file; without one the node stands alone.
unfoldable pub new_gossip_engine :
    (Bytes → Option Url) → Bytes → Option Bytes → Bytes → Mempool → Store → Result Engine
new_gossip_engine parse file content addr mp cs =
    let g = record (new_local_engine mp cs) { node_addr = trim_right_byte b'/' addr } in
    elim (file ==ₛ []) [ true ↦ ok g | false ↦ load_peers parse content g ]
