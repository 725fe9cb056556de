-- ===== src/Engine/Tables.antt =====
-- Insertion, lookup and removal in the tables of the engine.
pub mod Refines
pub mod Arrivals
use ebc_node.Base.{ℕ, ◌≡◌, refl, none, some, List, arith}
use ebc_node.Base.StdMap.{find, insert, assign, erase, find-insert, find-assign, find-erase}
use ebc_node.Node.{Node, NodeId, id_key, sock_key, ids_eq_iff}
use ebc_node.Engine.{Engine, put_client, put_peer, del_client_node, del_peer_node}

-- Two engines that answer alike: the same entries in each table, whatever the order.
pub record SameTables (e e' : Engine) : Type 0 where
  pub clients : (k : NodeId) → find k e.client_node ≡ find k e'.client_node
  pub peers : (k : NodeId) → find k e.peer_node ≡ find k e'.peer_node
  pub socks : (s : ℕ) → find s e.sock_id_pair ≡ find s e'.sock_id_pair

-- A client under a new id on a new socket, removed by its socket: every lookup is as before.
pub del_client_node-put_client :
    (id : NodeId) (node : Node) (sock : ℕ) (e : Engine)
    → find id e.client_node ≡ none
    → find sock e.sock_id_pair ≡ none
    → SameTables (del_client_node sock (put_client id node sock e)) e
unfolding del_client_node put_client
del_client_node-put_client id node sock e new_id new_sock =
    rw (stored, del_client_node)
      (record {
        clients = λ k.
            rw (find-erase id k, find-insert id k node e.client_node, new_id)
              (ground (arith, ids_eq_iff k id, new_id));
        peers = λ k. refl;
        socks = λ s.
            rw (find-erase sock s, find-assign sock s id e.sock_id_pair) (ground (arith, new_sock));
      })
  where
    stored : find sock (assign sock id e.sock_id_pair) ≡ some id
    stored = rw (find-assign sock sock id e.sock_id_pair) (ground arith)

-- A peer under a new id on a new socket, removed by its socket: every lookup is as before.
pub del_peer_node-put_peer :
    (id : NodeId) (node : Node) (sock : ℕ) (e : Engine)
    → find id e.peer_node ≡ none
    → find sock e.sock_id_pair ≡ none
    → SameTables (del_peer_node sock (put_peer id node sock e)) e
unfolding del_peer_node put_peer
del_peer_node-put_peer id node sock e new_id new_sock =
    rw (stored, del_peer_node)
      (record {
        clients = λ k. refl;
        peers = λ k.
            rw (find-erase id k, find-insert id k node e.peer_node, new_id)
              (ground (arith, ids_eq_iff k id, new_id));
        socks = λ s.
            rw (find-erase sock s, find-assign sock s id e.sock_id_pair) (ground (arith, new_sock));
      })
  where
    stored : find sock (assign sock id e.sock_id_pair) ≡ some id
    stored = rw (find-assign sock sock id e.sock_id_pair) (ground arith)

-- Every entry is stored under the id of its node.
abbrev pub IsKeyed : List (NodeId × Node) → Type 0
IsKeyed m = (k : NodeId) (n : Node) → find k m ≡ some n → n.id ≡ k

pub insert-IsKeyed :
    (id : NodeId) (node : Node) (m : List (NodeId × Node))
    → node.id ≡ id
    → IsKeyed m
    → IsKeyed (insert id node m)
insert-IsKeyed id node m own keyed k n h =
    ground (arith, find-insert id k node m, ids_eq_iff k id, keyed k n, h, own)

assign-IsKeyed :
    (id : NodeId) (node : Node) (m : List (NodeId × Node))
    → node.id ≡ id
    → IsKeyed m
    → IsKeyed (assign id node m)
assign-IsKeyed id node m own keyed k n h =
    ground (arith, find-assign id k node m, ids_eq_iff k id, keyed k n, h, own)

pub erase-IsKeyed : (id : NodeId) (m : List (NodeId × Node)) → IsKeyed m → IsKeyed (erase id m)
erase-IsKeyed id m keyed k n h = ground (arith, find-erase id k m, keyed k n, h)
