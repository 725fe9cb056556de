-- ===== src/Engine/System/Peers.antt =====
-- The table of peers along the runs of the engine.
use ebc_node.Base.{ℕ, inl, inr, Option-cases}
use mathlib.Core.Path.{subst}
use ebc_node.Base.StdMap.{find}
use ebc_node.Base.StdMap.Ascending.{
  IsAscending, insert-IsAscending, assign-IsAscending, erase-IsAscending,
}
use ebc_node.Node.{id_key, sock_key}
use ebc_node.Node.IdOrder.{id_key-IsOrder}
use ebc_node.Engine.{
  Engine, put_client, put_peer, del_client_node, del_client_node_id, del_peer_node,
  del_peer_node_id, update_peer_node,
}
use ebc_node.Engine.Closed.{Handled, Closed}
use ebc_node.Engine.Message.Keyed.{add_client_node-makes, add_peer_node-puts}

-- The peers stand in ascending order of their ids.
abbrev pub ArePeers : Engine → Type 0
ArePeers e = IsAscending e.peer_node

ArePeers-Handled : Handled ArePeers
unfolding put_client put_peer
ArePeers-Handled = record {
  adds_client = λ memory id addr nat sock e e' p put.
      let (nid, node, size, made, done) = add_client_node-makes memory id addr nat sock e e' put in
      subst ArePeers done p;
  adds_peer = λ memory id ip port_nat sock e e' p put.
      let (nid, node, own, done) = add_peer_node-puts memory id ip port_nat sock e e' put in
      subst ArePeers done (insert-IsAscending id_key-IsOrder nid node e.peer_node p);
}

del_client_node-ArePeers : (sock : ℕ) (e : Engine) → ArePeers e → ArePeers (del_client_node sock e)
unfolding del_client_node del_client_node_id
del_client_node-ArePeers sock e p = elim (Option-cases (find sock e.sock_id_pair)) [
  | inl lacks ↦ rw (lacks, del_client_node) p
  | inr (id, has) ↦ rw (has, del_client_node) p
]

del_peer_node-ArePeers : (sock : ℕ) (e : Engine) → ArePeers e → ArePeers (del_peer_node sock e)
unfolding del_peer_node del_peer_node_id
del_peer_node-ArePeers sock e p = elim (Option-cases (find sock e.sock_id_pair)) [
  | inl lacks ↦ rw (lacks, del_peer_node) p
  | inr (id, has) ↦ rw (has, del_peer_node) (erase-IsAscending id e.peer_node p)
]

pub ArePeers-Closed : Closed ArePeers
unfolding update_peer_node
ArePeers-Closed = record {
  served = record { handled = ArePeers-Handled; dels_client = del_client_node-ArePeers };
  dels_peer = del_peer_node-ArePeers;
  updates_peer = λ id node e p. assign-IsAscending id_key-IsOrder id node e.peer_node p;
  indexes = λ m e p. p;
  sets_boot = λ o e p. p;
  sets_local = λ a b e p. p;
  serves = λ b c e p. p;
  stops = λ b c e p. p;
}
