-- ===== src/Engine.antt =====
-- src/netengine.cpp and include/netengine.h: `NET::NetEngine`, its members and its tables.
pub mod Tables
pub mod Closed
pub mod Kept
pub mod System
pub mod Stale
pub mod World
pub mod Print
pub mod Punch
pub mod Message
pub mod Client
pub mod Server
use ebc_node.Base.{
  ℕ, zero, suc, ◌+◌, ◌-◌, ◌*◌, ◌/◌, ◌%◌, ◌^◌, ◌≤◌, ◌<◌, ◌≡◌, refl, sym, ap, ◌∙◌, ◌≢◌, ◌↔◌, ◌⊎◌, inl,
  inr, Bool, true, false, not, ◌&&◌, ◌||◌, Option, none, some, List, [], ◌∷◌, ◌++◌, map, arith,
  dec_lt, ℕ_discrete, ltb, leb, ◌==◌, if◌then◌else◌, ltb→lt, ==_iff, Bool-cases, Option-cases,
  length, get_elem?, take, drop, replicate, All, length-append, length-take, length-drop,
  take-append, drop-append, take_all,
}
use ebc_node.Base.StdMap.{find, insert, assign, erase, find-insert, find-assign, find-erase}
use ebc_node.SockAddr.{SockAddr, ◌>>=◌, endpoint}
use ebc_node.Node.{
  Node, NodeId, NodeState, stable, connected, paunch, disconnected, zero_id, default_node, new_node,
  set_addr, set_state, set_nat, set_sock, string_to_node_id, id_key, sock_key, ids_eq, ids_eq_iff,
  symmtric,
}
use ebc_node.Utils.{par_port, par_nat}

-- The parts of a `sockaddr_in` that the engine uses, as they lie in memory (network order).
pub record SockIn : Type 0 where
  pub sin_addr : ℕ
  pub sin_port : ℕ

-- The members, without the two `std::thread` handles. `boot_sock` is `none` before `startClient` sets it.
pub record Engine : Type 0 where
  pub self : Node
  pub boot_sock : Option ℕ
  pub peer_node : List (NodeId × Node)
  pub client_node : List (NodeId × Node)
  pub boot_thread_flag : Bool
  pub is_server : Bool
  pub server_thread_flag : Bool
  pub sock_id_pair : List (ℕ × NodeId)
  pub local_addr : SockIn

-- `NetEngine(_id, _isServer)`. The two flags of the threads are not initialised: they are what the
-- memory happens to hold.
unfoldable pub new_engine : Bool → Bool → NodeId → Bool → Engine
new_engine boot_flag server_flag id is_server = record {
  self = new_node id;
  boot_sock = none;
  peer_node = [];
  client_node = [];
  boot_thread_flag = boot_flag;
  is_server = is_server;
  server_thread_flag = server_flag;
  sock_id_pair = [];
  local_addr = record { sin_addr = 0; sin_port = 0 };
}

-- The node that `addClientNode` makes of a connected socket, and the one that `addPeerNode` and the
-- other `addClientNode` make of the fields of a message.
unfoldable pub connected_node : List ℕ → NodeId → SockIn → ℕ → ℕ → Option Node
connected_node fresh nid addr nat sock = endpoint fresh addr.sin_port addr.sin_addr >>= λ a.
    some (set_state connected (set_sock sock (set_nat nat (set_addr a (new_node nid)))))

unfoldable pub announced_node : List ℕ → NodeId → ℕ → ℕ → ℕ → Option Node
announced_node fresh id ip port_nat sock = endpoint fresh (par_port port_nat) ip >>= λ a.
    some (set_sock sock (set_nat (par_nat port_nat) (set_addr a (new_node id))))

-- The last two statements of each: `insert`, and `sockIdPair[sock] = id`.
unfoldable pub put_client : NodeId → Node → ℕ → Engine → Engine
put_client id node sock e = record e {
  client_node = insert id node e.client_node;
  sock_id_pair = assign sock id e.sock_id_pair;
}

unfoldable pub put_peer : NodeId → Node → ℕ → Engine → Engine
put_peer id node sock e = record e {
  peer_node = insert id node e.peer_node;
  sock_id_pair = assign sock id e.sock_id_pair;
}

-- `addClientNode(const std::string&, const sockaddr_in&, nat, sock)`.
unfoldable pub add_client_node : List ℕ → List ℕ → SockIn → ℕ → ℕ → Engine → Option Engine
add_client_node fresh id addr nat sock e = string_to_node_id id >>= λ nid.
    connected_node fresh nid addr nat sock >>= λ node. some (put_client nid node sock e)

-- `addClientNode(const NodeId&, ip, port_nat, sock)`.
unfoldable add_client_node_id : List ℕ → NodeId → ℕ → ℕ → ℕ → Engine → Option Engine
add_client_node_id fresh id ip port_nat sock e =
    announced_node fresh id ip port_nat sock >>= λ node. some (put_client id node sock e)

-- `addPeerNode(const NodeId&, ip, port_nat, sock)`, and with a string for the id.
unfoldable pub add_peer_node_id : List ℕ → NodeId → ℕ → ℕ → ℕ → Engine → Option Engine
add_peer_node_id fresh id ip port_nat sock e =
    announced_node fresh id ip port_nat sock >>= λ node. some (put_peer id node sock e)

unfoldable pub add_peer_node : List ℕ → List ℕ → ℕ → ℕ → ℕ → Engine → Option Engine
add_peer_node fresh id ip port_nat sock e =
    string_to_node_id id >>= λ nid. add_peer_node_id fresh nid ip port_nat sock e

-- `addClientNode(const std::string&, ip, port_nat, sock)`.
unfoldable add_client_node_string : List ℕ → List ℕ → ℕ → ℕ → ℕ → Engine → Option Engine
add_client_node_string fresh id ip port_nat sock e =
    string_to_node_id id >>= λ nid. add_client_node_id fresh nid ip port_nat sock e

-- `findClientNode` and `findPeerNode`: the flag, and the node that the caller then holds.
abbrev or_keep : Node → Option Node → Bool × Node
or_keep node none = (false, node)
or_keep node (some n) = (true, n)

unfoldable find_client_node : NodeId → Node → Engine → Bool × Node
find_client_node id node e = or_keep node (find id e.client_node)

unfoldable pub find_peer_node : NodeId → Node → Engine → Bool × Node
find_peer_node id node e = or_keep node (find id e.peer_node)

-- With a string for the id: the flag that the callee returns is dropped, and a function that ends
-- without `return` has no value. The answer has the node, and the value that is not there.
unfoldable find_client_node_string : List ℕ → Node → Engine → Option (Option Bool × Node)
unfolding find_client_node
find_client_node_string id node e =
    string_to_node_id id >>= λ tmp. some (none, (find_client_node tmp node e).1)

unfoldable find_peer_node_string : List ℕ → Node → Engine → Option (Option Bool × Node)
unfolding find_peer_node
find_peer_node_string id node e =
    string_to_node_id id >>= λ tmp. some (none, (find_peer_node tmp node e).1)

-- `updatePeerNode`.
unfoldable pub update_peer_node : NodeId → Node → Engine → Engine
update_peer_node id node e = record e { peer_node = assign id node e.peer_node }

-- `delClientNode` and `delPeerNode`, by id and by socket.
unfoldable pub del_client_node_id : NodeId → Engine → Engine
del_client_node_id id e = record e { client_node = erase id e.client_node }

unfoldable del_peer_node_id : NodeId → Engine → Engine
del_peer_node_id id e = record e { peer_node = erase id e.peer_node }

unfoldable pub del_client_node : ℕ → Engine → Engine
unfolding del_client_node_id
del_client_node sock e = elim (find sock e.sock_id_pair) [
  | none ↦ e
  | some id ↦ record (del_client_node_id id e) { sock_id_pair = erase sock e.sock_id_pair }
]

unfoldable pub del_peer_node : ℕ → Engine → Engine
unfolding del_peer_node_id
del_peer_node sock e = elim (find sock e.sock_id_pair) [
  | none ↦ e
  | some id ↦ record (del_peer_node_id id e) { sock_id_pair = erase sock e.sock_id_pair }
]

-- With a string for the id.
unfoldable del_client_node_string : List ℕ → Engine → Option Engine
unfolding del_client_node_id
del_client_node_string id e = string_to_node_id id >>= λ tmp. some (del_client_node_id tmp e)

unfoldable del_peer_node_string : List ℕ → Engine → Option Engine
unfolding del_peer_node_id
del_peer_node_string id e = string_to_node_id id >>= λ tmp. some (del_peer_node_id tmp e)
