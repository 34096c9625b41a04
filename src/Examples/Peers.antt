-- ===== src/Examples/Peers.antt =====
-- The theorem on the peers file, at a small file.
use distributed_p2p_ledger.Base.{
  ◌≡◌, refl, All, false, [], ◌∷◌, ◌++◌, Bytes, codes, has, has_prefix, ◌==ₛ◌, Option, some, ok,
}
use distributed_p2p_ledger.Text.{trim_left_space, trim_space, trim_right_byte}
use distributed_p2p_ledger.Mempool.{new_mempool}
use distributed_p2p_ledger.Gossip.{Engine}
use distributed_p2p_ledger.Gossip.Peers.{
  Url, split_lines, is_peer_url, add_peers, load_peers, new_gossip_engine,
}
use distributed_p2p_ledger.Gossip.Peers.Listed.{IsPeerList, IsListed, new_gossip_engine-IsPeerList}
use distributed_p2p_ledger.Examples.{genesis_store, fresh_engine}

abbrev parse : Bytes → Option Url
parse peer = some (record {
  scheme = codes "http";
  hostname = codes "b";
  has_user = false;
  path = [];
  raw_query = [];
  fragment = [];
})

-- Two peers, one of them twice, the node itself, a comment and an empty line.
abbrev peers_file : Bytes
peers_file =
    codes "http://b/"
    ++ 10 ∷ codes "# others"
    ++ 10 ∷ 10 ∷ codes " http://a"
    ++ 10 ∷ codes "http://c"
    ++ 10 ∷ codes "http://b"

abbrev node : Engine
node = record fresh_engine { node_addr = codes "http://a" }

node_starts :
    new_gossip_engine parse
      (codes "peers.txt")
      (some peers_file)
      (codes "http://a/")
      new_mempool
      genesis_store
    ≡ ok node
unfolding new_gossip_engine load_peers add_peers split_lines is_peer_url trim_left_space trim_space
    trim_right_byte has has_prefix ◌==ₛ◌
node_starts = refl

named : (codes "peers.txt" ==ₛ []) ≡ false
unfolding ◌==ₛ◌
named = refl

new_gossip_engine-IsPeerList_example :
    IsPeerList parse node.node_addr node.peers
    × All (IsListed node.node_addr node.peers) (split_lines peers_file)
    × (node.node_addr ≡ trim_right_byte b'/' (codes "http://a/"))
new_gossip_engine-IsPeerList_example =
    new_gossip_engine-IsPeerList parse (codes "peers.txt") peers_file (codes "http://a/")
      new_mempool genesis_store named node_starts
