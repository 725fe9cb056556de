-- ===== src/Engine/Client.antt =====
-- `startClient` and its thread, `sendHello`, and the destructor.
pub mod Phantom
pub mod Closing
pub mod Keeps
pub mod Greeting
pub mod Greets
pub mod Hearing
pub mod HelloText
pub mod Request
pub mod Thread
pub mod Lasting
pub mod Survives
use ebc_node.Base.{
  ℕ, zero, suc, ◌+◌, ◌-◌, ◌*◌, ◌/◌, ◌%◌, ◌^◌, ◌≤◌, ◌<◌, ◌≡◌, refl, sym, ap, ◌∙◌, ◌≢◌, ◌↔◌, ◌⊎◌, inl,
  inr, Bool, true, false, not, ◌&&◌, ◌||◌, Option, none, some, List, [], ◌∷◌, ◌++◌, map, arith,
  dec_lt, ℕ_discrete, ltb, leb, ◌==◌, if◌then◌else◌, ltb→lt, ==_iff, Bool-cases, Option-cases,
  length, get_elem?, take, drop, replicate, All, length-append, length-take, length-drop,
  take-append, drop-append, take_all,
}
use ebc_node.Engine.World.{
  Udt, World, UdtStatus, init, opened, listening, connecting, broken, closing, closed, nonexist,
  Call, socket_value, SockOption, udt_sndsyn, udt_rcvsyn, udt_sndbuf, udt_rcvbuf, udt_rendezvous,
  Events, socket, getsockname, accept, getsockopt, udt_state, getpeername, listen, recv, send,
  setsockopt, bind, connect, close, epoll_add, epoll_create, epoll_remove, M, ◌>>=◌, ◌>>◌, return,
  fault, defined, if_some, ask, call, get, modify, update, look, fresh, send_buffer,
}
use ebc_node.Engine.{
  Engine, SockIn, put_client, put_peer, connected_node, announced_node, add_client_node,
  add_peer_node, find_peer_node, update_peer_node, del_client_node, del_peer_node,
}
use ebc_node.Utils.{par_port, par_nat, com_port_nat, srv_port}
use ebc_node.Base.StdMap.{find, insert, assign, erase, find-insert, find-assign, find-erase}
use ebc_node.SockAddr.{SockAddr, raw_port, get_ipv4, new_addr}
use ebc_node.Node.{
  Node, NodeId, NodeState, connected as is_connected, zero_id, default_node, set_state, id_key,
  sock_key,
}
use ebc_node.Engine.Punch.{start_punch, set_udt_opt, all_events}
use ebc_node.Wire.{Wire, Result, ok, failed, stuck}
use ebc_node.Proto.Enums.{type_get_node, type_rep, type_punch, sub_empty, sub_node, sub_data}
use ebc_node.Proto.Node.{EbcNode}
use ebc_node.Proto.Nodes.{EbcNodes, new_nodes, ebcnodes_at, add_ebcnodes}
use ebc_node.Proto.Msg.{EbcMsg, nodes}
use ebc_node.MsgPack.{MsgPack, Packed, Payload, a_node, some_nodes, text, new_pack, pack, unpack}
use ebc_node.Engine.Message.{handle_msg, zeros}

abbrev pub write_events : Events
write_events = record { on_in = false; on_out = true; on_err = true }

abbrev pub read_events : Events
read_events = record { on_in = true; on_out = false; on_err = true }

-- `sock == boot_sock`.
abbrev pub is_boot : ℕ → Option ℕ → Bool
is_boot sock none = false
is_boot sock (some boot) = sock == boot

-- `CLOSED == state || BROKEN == state || CONNECTING == state`.
abbrev pub is_down : UdtStatus → Bool
is_down closed = true
is_down broken = true
is_down connecting = true
is_down _ = false

-- A socket in `errfds`.
unfoldable pub on_error : Udt → ℕ → M (Unit {0})
on_error udt sock = do
  ask (getsockopt sock udt_state) udt.a_state
  call (epoll_remove sock)
  engine ← get
  if is_boot sock engine.boot_sock
      then return tt
      else (do call (close sock); modify (del_peer_node sock))

-- A socket in `writefds` or `readfds` that is down: the one to the server is connected again, any
-- other is given up. The answer is whether the thread goes on.
unfoldable pub give_up : Udt → SockIn → ℕ → M Bool
give_up udt server sock = do
  call (epoll_remove sock)
  engine ← get
  if is_boot sock engine.boot_sock
      then (do
        linked ← ask (connect sock server) udt.succeeds
        if linked then (do call (epoll_add sock write_events); return true) else return false)
      else (do call (close sock); modify (del_peer_node sock); return true)

-- The request that names the NAT type of this node.
abbrev pub self_node : Node → EbcNode
self_node self = record { id = []; ip = 0; port_nat = com_port_nat 0 self.nat; unknown = [] }

abbrev pub node_request : Wire → Node → Option Packed
node_request w self =
    pack w (new_pack self.id) type_get_node (a_node (self_node self)) (some (zeros 1024)) 1024
      sub_empty zero_id

-- Connected to the server: GET_NODE goes out, by way of a buffer of 1024 bytes.
unfoldable pub send_get_node : Wire → ℕ → M (Unit {0})
send_get_node w sock = do
  engine ← get
  request ← defined (node_request w engine.self)
  bytes ← defined (request.buffer)
  send_buffer sock bytes request.ret

-- `sockIdPair[sock]` makes an entry with a zero id where there is none.
unfoldable pub index_id : ℕ → Engine → Engine
index_id sock e = record e { sock_id_pair = insert sock zero_id e.sock_id_pair }

-- Connected to a peer: its entry is found and its state updated. Where it is not found, the entry
-- that is written is the node that `Node node;` made.
unfoldable pub mark_connected : Udt → ℕ → M (Unit {0})
mark_connected udt sock = do
  modify (index_id sock)
  engine ← get
  peer_id ← defined (find sock engine.sock_id_pair)
  memory ← fresh udt
  addr ← defined (new_addr memory)
  let found = find_peer_node peer_id (default_node addr) engine
  modify (update_peer_node peer_id (set_state is_connected found.1))

-- A socket in `writefds`.
unfoldable pub on_writable : Wire → Udt → SockIn → ℕ → M Bool
on_writable w udt server sock = do
  state ← ask (getsockopt sock udt_state) udt.a_state
  if is_down state then give_up udt server sock else (do
    call (epoll_remove sock)
    call (epoll_add sock read_events)
    engine ← get
    if is_boot sock engine.boot_sock then send_get_node w sock else mark_connected udt sock
    return true)

-- A socket in `readfds`.
unfoldable pub on_readable : Wire → Udt → SockIn → ℕ → M Bool
on_readable w udt server sock = do
  state ← ask (getsockopt sock udt_state) udt.a_state
  if is_down state then give_up udt server sock else (do handle_msg w udt sock; return true)

-- The sockets of a set in turn, until the thread returns.
unfoldable pub until_return : (ℕ → M Bool) → List ℕ → M Bool
until_return handle [] = return true
until_return handle (s ∷ ss) = do
  going ← handle s
  if going then until_return handle ss else return false

unfoldable pub each : (ℕ → M (Unit {0})) → List ℕ → M (Unit {0})
each handle [] = return tt
each handle (s ∷ ss) = do handle s; each handle ss

-- One round of the thread, over what `epoll_wait` reported.
unfoldable pub client_round : Wire → Udt → SockIn → List ℕ → List ℕ → List ℕ → M Bool
client_round w udt server errors writable readable = do
  each (on_error udt) errors
  going ← until_return (on_writable w udt server) writable
  if going then until_return (on_readable w udt server) readable else return false

-- `startClient(ip, port)`: whether the thread is started. `UDT::bind` and `getsockname` may fail.
unfoldable pub start_client : Udt → M Bool
start_client udt = do
  created ← ask socket udt.a_socket
  modify (λ e. record e { boot_sock = some (socket_value created) })
  if_some created
      (λ sock. do
        set_udt_opt udt sock
        engine ← get
        bound ← ask (bind sock engine.local_addr) udt.succeeds
        if bound
            then (do
              named ← ask getsockname udt.succeeds
              if named
                  then (do
                    name ← look udt.a_name
                    modify (λ e. record e { local_addr = name; boot_thread_flag = true })
                    return true)
                  else return false)
            else return false)
      (return false)

-- The start of the thread: connect, and wait for the socket to become writable.
unfoldable pub begin_client : Udt → SockIn → ℕ → M Bool
begin_client udt server sock = do
  linked ← ask (connect sock server) udt.succeeds
  if linked
      then (do call epoll_create; call (epoll_add sock write_events); return true)
      else return false

-- The greeting for one peer.
abbrev pub greeting : Wire → MsgPack → List ℕ → List ℕ → NodeId → Option Packed
greeting w packer hello buffer dst_id =
    pack w packer type_rep (text hello) (some buffer) 1024 sub_data dst_id

-- `sendHello`: one round over the peers, with one packer and one buffer of 1024 bytes for all.
unfoldable pub hello_all : Wire → List (NodeId × Node) → List ℕ → MsgPack → List ℕ → M (Unit {0})
hello_all w [] hello packer buffer = return tt
hello_all w ((id, peer) ∷ peers) hello packer buffer = do
  packed ← defined (greeting w packer hello buffer peer.id)
  bytes ← defined (packed.buffer)
  sock ← defined peer.sock
  send_buffer sock bytes packed.ret
  hello_all w peers hello packed.object bytes

unfoldable pub hello_round : Wire → List ℕ → M (Unit {0})
hello_round w hello = do
  engine ← get
  hello_all w engine.peer_node hello (new_pack engine.self.id) (zeros 1024)

-- `~NetEngine`.
unfoldable pub close_all : List (NodeId × Node) → M (Unit {0})
close_all [] = return tt
close_all ((id, node) ∷ rest) = do sock ← defined node.sock; call (close sock); close_all rest

unfoldable pub destroy : M (Unit {0})
destroy = do
  modify (λ e. record e { boot_thread_flag = false; server_thread_flag = false })
  engine ← get
  boot ← defined engine.boot_sock
  call (close boot)
  close_all engine.peer_node
  close_all engine.client_node
