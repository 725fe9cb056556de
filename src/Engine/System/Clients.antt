-- ===== src/Engine/System/Clients.antt =====
-- Properties of the table of clients that putting a connected node and erasing an entry keep: the other
-- operations of the engine leave the table alone, and none of them touches its own node.
use ebc_node.Base.{ℕ, ◌≡◌, some, inl, inr, List, length, Option-cases}
use mathlib.Core.Path.{subst}
use ebc_node.Base.StdMap.{find, insert, erase}
use ebc_node.Node.{Node, NodeId, id_key, sock_key}
use ebc_node.Engine.{
  Engine, SockIn, connected_node, put_client, put_peer, del_client_node, del_client_node_id,
  del_peer_node, del_peer_node_id, update_peer_node,
}
use ebc_node.Engine.Closed.{Handled, Closed}
use ebc_node.Engine.Message.Keyed.{add_client_node-makes, add_peer_node-puts}

pub record OfClients (Q : List (NodeId × Node) → Type 0) : Type 0 where
  pub puts :
      (memory : List ℕ) (nid : NodeId) (addr : SockIn) (nat sock : ℕ) (node : Node)
      (m : List (NodeId × Node))
      → length nid ≡ 20
      → connected_node memory nid addr nat sock ≡ some node
      → Q m
      → Q (insert nid node m)
  pub erases : (id : NodeId) (m : List (NodeId × Node)) → Q m → Q (erase id m)

-- This node is who it was, and the clients are as `Q` says.
abbrev pub IsSound : (List (NodeId × Node) → Type 0) → Node → Engine → Type 0
IsSound Q self e = (e.self ≡ self) × Q e.client_node

module _ (Q : List (NodeId × Node) → Type 0) (of : OfClients Q) (self : Node) where
  IsSound-Handled : Handled (IsSound Q self)
  unfolding put_client put_peer
  IsSound-Handled = record {
    adds_client = λ memory id addr nat sock e e' (same, q) put.
        let (nid, node, size, made, done) =
          add_client_node-makes memory id addr nat sock e e' put in
        subst (IsSound Q self) done
          (same, of.puts memory nid addr nat sock node e.client_node size made q);
    adds_peer = λ memory id ip port_nat sock e e' p put.
        let (nid, node, own, done) = add_peer_node-puts memory id ip port_nat sock e e' put in
        subst (IsSound Q self) done p;
  }

  IsSound-del_client_node :
      (sock : ℕ) (e : Engine) → IsSound Q self e → IsSound Q self (del_client_node sock e)
  unfolding del_client_node del_client_node_id
  IsSound-del_client_node sock e (same, q) = elim (Option-cases (find sock e.sock_id_pair)) [
    | inl lacks ↦ rw (lacks, del_client_node) (same, q)
    | inr (id, has) ↦ rw (has, del_client_node) (same, of.erases id e.client_node q)
  ]

  IsSound-del_peer_node :
      (sock : ℕ) (e : Engine) → IsSound Q self e → IsSound Q self (del_peer_node sock e)
  unfolding del_peer_node del_peer_node_id
  IsSound-del_peer_node sock e p = elim (Option-cases (find sock e.sock_id_pair)) [
    | inl lacks ↦ rw (lacks, del_peer_node) p
    | inr (id, has) ↦ rw (has, del_peer_node) p
  ]

  pub IsSound-Closed : Closed (IsSound Q self)
  unfolding update_peer_node
  IsSound-Closed = record {
    served = record { handled = IsSound-Handled; dels_client = IsSound-del_client_node };
    dels_peer = IsSound-del_peer_node;
    updates_peer = λ id node e p. p;
    indexes = λ m e p. p;
    sets_boot = λ o e p. p;
    sets_local = λ a b e p. p;
    serves = λ b c e p. p;
    stops = λ b c e p. p;
  }
