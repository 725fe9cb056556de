-- ===== src/Engine/Message/Keyed.antt =====
-- The nodes that are put into the tables, and the ids that they stand under.
use ebc_node.Base.{ℕ, ◌≡◌, some, List, [], ◌∷◌, ◌++◌, arith, length, length-take}
use ebc_node.Engine.{
  Engine, SockIn, put_client, put_peer, connected_node, announced_node, add_client_node,
  add_peer_node,
}
use ebc_node.Utils.{par_port}
use ebc_node.Node.{Node, NodeId, set_state, id_key, sock_key}
use ebc_node.Engine.{add_peer_node_id}
use ebc_node.Node.{new_node, set_addr, set_nat, set_sock, string_to_node_id}
use ebc_node.SockAddr.{endpoint, >>=-eq-some}

string_to_node_id-length :
    (s : List ℕ) (id : NodeId) → string_to_node_id s ≡ some id → length id ≡ 20
unfolding string_to_node_id
string_to_node_id-length s id h = ground (arith, length-take 20 (s ++ (0 ∷ [])))

pub connected_node-id :
    (memory : List ℕ) (nid : NodeId) (addr : SockIn) (nat sock : ℕ) (node : Node)
    → length nid ≡ 20
    → connected_node memory nid addr nat sock ≡ some node
    → node.id ≡ nid
unfolding connected_node set_addr set_nat set_sock set_state new_node
connected_node-id memory nid addr nat sock node h e =
    let (a, _, made) = >>=-eq-some (endpoint memory addr.sin_port addr.sin_addr) _ e in
    ground (arith, made)

announced_node-id :
    (memory : List ℕ) (nid : NodeId) (ip port_nat sock : ℕ) (node : Node)
    → length nid ≡ 20
    → announced_node memory nid ip port_nat sock ≡ some node
    → node.id ≡ nid
unfolding announced_node set_addr set_nat set_sock new_node
announced_node-id memory nid ip port_nat sock node h e =
    let (a, _, made) = >>=-eq-some (endpoint memory (par_port port_nat) ip) _ e in
    ground (arith, made)

-- What adding a client comes to, where it is defined.
pub add_client_node-makes :
    (memory id : List ℕ) (addr : SockIn) (nat sock : ℕ) (e e' : Engine)
    → add_client_node memory id addr nat sock e ≡ some e'
    → (nid : NodeId) × (node : Node) × (length nid ≡ 20)
      × (connected_node memory nid addr nat sock ≡ some node)
      × (put_client nid node sock e ≡ e')
unfolding add_client_node
add_client_node-makes memory id addr nat sock e e' h =
    let (nid, converted, h1) = >>=-eq-some (string_to_node_id id) _ h in
    let (node, made, h2) = >>=-eq-some (connected_node memory nid addr nat sock) _ h1 in
    (nid, node, string_to_node_id-length id nid converted, made, same h2)
  where
    same : {x y : Engine} → some x ≡ some y → x ≡ y
    same q = cc

-- The same, under the id of the node.
pub add_client_node-puts :
    (memory id : List ℕ) (addr : SockIn) (nat sock : ℕ) (e e' : Engine)
    → add_client_node memory id addr nat sock e ≡ some e'
    → (nid : NodeId) × (node : Node) × (node.id ≡ nid) × (put_client nid node sock e ≡ e')
add_client_node-puts memory id addr nat sock e e' h =
    let (nid, node, size, made, put) = add_client_node-makes memory id addr nat sock e e' h in
    (nid, node, connected_node-id memory nid addr nat sock node size made, put)

pub add_peer_node-puts :
    (memory id : List ℕ) (ip port_nat sock : ℕ) (e e' : Engine)
    → add_peer_node memory id ip port_nat sock e ≡ some e'
    → (nid : NodeId) × (node : Node) × (node.id ≡ nid) × (put_peer nid node sock e ≡ e')
unfolding add_peer_node add_peer_node_id
add_peer_node-puts memory id ip port_nat sock e e' h =
    let (nid, converted, h1) = >>=-eq-some (string_to_node_id id) _ h in
    let (node, made, h2) = >>=-eq-some (announced_node memory nid ip port_nat sock) _ h1 in
    (
      nid,
      node,
      announced_node-id memory nid ip port_nat sock node (string_to_node_id-length id nid converted)
          made,
      same h2,
    )
  where
    same : {x y : Engine} → some x ≡ some y → x ≡ y
    same q = cc
