-- ===== src/Engine/Server.antt =====
-- `startServer` and its thread.
pub mod Keeps
pub mod Start
pub mod Thread
use ebc_node.Base.{
  ℕ, zero, suc, ◌+◌, ◌-◌, ◌*◌, ◌/◌, ◌%◌, ◌^◌, ◌≤◌, ◌<◌, ◌≡◌, refl, sym, ap, ◌∙◌, ◌≢◌, ◌↔◌, ◌⊎◌, inl,
  inr, Bool, true, false, not, ◌&&◌, ◌||◌, Option, none, some, List, [], ◌∷◌, ◌++◌, map, arith,
  dec_lt, ℕ_discrete, ltb, leb, ◌==◌, if◌then◌else◌, ltb→lt, ==_iff, Bool-cases, Option-cases,
  length, get_elem?, take, drop, replicate, All, length-append, length-take, length-drop,
  take-append, drop-append, take_all,
}
use ebc_node.Engine.World.{
  Udt, World, UdtStatus, init, opened, listening, connecting, broken, closing, closed, nonexist,
  Call, socket_value, SockOption, udt_sndsyn, udt_rcvsyn, udt_sndbuf, udt_rcvbuf, udt_rendezvous,
  Events, socket, getsockname, accept, getsockopt, udt_state, getpeername, listen, recv, send,
  setsockopt, bind, connect, close, epoll_add, epoll_create, epoll_remove, M, ◌>>=◌, ◌>>◌, return,
  fault, defined, if_some, ask, call, get, modify, update, fresh, send_buffer,
}
use ebc_node.Engine.{
  Engine, SockIn, put_client, put_peer, connected_node, announced_node, add_client_node,
  add_peer_node, find_peer_node, update_peer_node, del_client_node, del_peer_node,
}
use ebc_node.Utils.{par_port, par_nat, com_port_nat, srv_port}
use ebc_node.Base.StdMap.{find, insert, assign, erase, find-insert, find-assign, find-erase}
use ebc_node.SockAddr.{SockAddr, raw_port, get_ipv4, new_addr}
use ebc_node.Node.{
  Node, NodeId, NodeState, connected as is_connected, zero_id, default_node, set_state, id_key,
  sock_key,
}
use ebc_node.Engine.Punch.{start_punch, set_udt_opt, all_events}
use ebc_node.Wire.{Wire, Result, ok, failed, stuck}
use ebc_node.Proto.Enums.{type_get_node, type_rep, type_punch, sub_empty, sub_node, sub_data}
use ebc_node.Proto.Node.{EbcNode}
use ebc_node.Proto.Nodes.{EbcNodes, new_nodes, ebcnodes_at, add_ebcnodes}
use ebc_node.Proto.Msg.{EbcMsg, nodes}
use ebc_node.MsgPack.{MsgPack, Packed, Payload, a_node, some_nodes, text, new_pack, pack, unpack}
use ebc_node.Engine.Message.{handle_msg}
use ebc_node.Engine.Client.{read_events, each}

-- `htons`.
abbrev pub htons : ℕ → ℕ
htons v = v % 256 * 256 + v / 256 % 256

-- `CLOSED == state || BROKEN == state`.
abbrev pub is_gone : UdtStatus → Bool
is_gone closed = true
is_gone broken = true
is_gone _ = false

-- A client that has gone.
unfoldable pub drop_client : ℕ → M (Unit {0})
drop_client sock = do call (epoll_remove sock); call (close sock); modify (del_client_node sock)

-- A socket in `errfds`.
unfoldable pub on_error : Udt → ℕ → M (Unit {0})
on_error udt sock = do
  state ← ask (getsockopt sock udt_state) udt.a_state
  if is_gone state then drop_client sock else return tt

-- A socket in `readfds`: the listening one has a new client, any other a message.
unfoldable pub on_readable : Wire → Udt → ℕ → ℕ → M (Unit {0})
on_readable w udt server sock =
    if sock == server
    then (do
      got ← ask (accept server) udt.a_socket
      if_some got (λ client. call (epoll_add client read_events)) (return tt))
    else (do
      state ← ask (getsockopt sock udt_state) udt.a_state
      if is_gone state then drop_client sock else handle_msg w udt sock)

-- One round of the thread, over what `epoll_wait` reported.
unfoldable pub server_round : Wire → Udt → ℕ → List ℕ → List ℕ → M (Unit {0})
server_round w udt server errors readable = do
  each (on_error udt) errors
  each (on_readable w udt server) readable

-- The start of the thread, on its socket: options, `bind` and `listen`, and the epoll set. The
-- answer is `none` where the thread returns.
unfoldable pub listen_on : Udt → ℕ → M (Option ℕ)
listen_on udt server = do
  call epoll_create
  set_udt_opt udt server
  bound ← ask (bind server (record { sin_addr = 0; sin_port = htons srv_port })) udt.succeeds
  if bound
      then (do
        heard ← ask (listen server) udt.succeeds
        if heard
            then (do call (epoll_add server read_events); return (some server))
            else return none)
      else return none

-- `startServer`: the flags are set, and the thread opens the listening socket; the answer is that
-- socket, or `none` where the thread returns. A `NodeId` has 20 bytes and is
-- never empty. What `UDT::socket` returns is not looked at: the thread goes on with INVALID_SOCK too.
unfoldable pub start_server : Udt → M (Option ℕ)
start_server udt = do
  engine ← get
  if length engine.self.id == 0 then return none else (do
    modify (λ e. record e { is_server = true; server_thread_flag = true })
    created ← ask socket udt.a_socket
    listen_on udt (socket_value created))
