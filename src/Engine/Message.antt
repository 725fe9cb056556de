-- ===== src/Engine/Message.antt =====
-- `handleMsg`: one message is received, checked and acted upon.
pub mod Echo
pub mod Survives
pub mod Exact
pub mod Requests
pub mod Nodeless
pub mod Keeps
pub mod Introduction
pub mod Announce
pub mod Reads
pub mod Meets
pub mod Keyed
pub mod Listable
pub mod Delivery
pub mod Overflow
use ebc_node.Base.{
  ℕ, zero, suc, ◌+◌, ◌-◌, ◌*◌, ◌/◌, ◌%◌, ◌^◌, ◌≤◌, ◌<◌, ◌≡◌, refl, sym, ap, ◌∙◌, ◌≢◌, ◌↔◌, ◌⊎◌, inl,
  inr, Bool, true, false, not, ◌&&◌, ◌||◌, Option, none, some, List, [], ◌∷◌, ◌++◌, map, arith,
  dec_lt, ℕ_discrete, ltb, leb, ◌==◌, if◌then◌else◌, ltb→lt, ==_iff, Bool-cases, Option-cases,
  length, get_elem?, take, drop, replicate, All, length-append, length-take, length-drop,
  take-append, drop-append, take_all,
}
use ebc_node.Engine.World.{
  Udt, World, UdtStatus, init, opened, listening, connecting, broken, closing, closed, nonexist,
  Call, SockOption, udt_sndsyn, udt_rcvsyn, udt_sndbuf, udt_rcvbuf, udt_rendezvous, Events, socket,
  getsockname, accept, getsockopt, udt_state, getpeername, listen, recv, send, setsockopt, bind,
  connect, close, epoll_add, epoll_remove, M, ◌>>=◌, ◌>>◌, return, fault, defined, if_some, ask,
  call, get, modify, update, fresh, send_buffer,
}
use ebc_node.Engine.{
  Engine, SockIn, put_client, put_peer, connected_node, announced_node, add_client_node,
  add_peer_node, find_peer_node, update_peer_node, del_client_node, del_peer_node,
}
use ebc_node.Utils.{par_port, par_nat, com_port_nat, srv_port}
use ebc_node.Base.StdMap.{find, insert, assign, erase, find-insert, find-assign, find-erase}
use ebc_node.SockAddr.{SockAddr, raw_port, get_ipv4, new_addr}
use ebc_node.Node.{
  Node, NodeId, NodeState, connected as is_connected, zero_id, default_node, set_state, id_key,
  sock_key,
}
use ebc_node.Engine.Punch.{start_punch, set_udt_opt, all_events}
use ebc_node.Wire.{Wire, Result, ok, failed, stuck}
use ebc_node.Proto.Enums.{type_get_node, type_rep, type_punch, sub_empty, sub_node, sub_data}
use ebc_node.Proto.Node.{EbcNode}
use ebc_node.Proto.Nodes.{EbcNodes, new_nodes, ebcnodes_at, add_ebcnodes}
use ebc_node.Proto.Msg.{EbcMsg, nodes}
use ebc_node.MsgPack.{MsgPack, Packed, Payload, a_node, some_nodes, text, new_pack, pack, unpack}

-- `char buf[6*1024]`.
abbrev pub buffer_size : ℕ
buffer_size = 6144

-- A buffer of zero bytes, and one that a message was received into.
abbrev pub zeros : ℕ → List ℕ
zeros n = replicate n 0

abbrev pub received_into : ℕ → List ℕ → List ℕ
received_into n bytes = take n bytes ++ zeros (n - length bytes)

-- `startPunch` and then, if there is a socket, `addPeerNode`, for one node of a message.
unfoldable pub meet : Udt → EbcNode → M (Unit {0})
meet udt node = do
  got ← start_punch udt node.ip (par_port node.port_nat)
  if_some got
      (λ sock. do
        memory ← fresh udt
        update (add_peer_node memory node.id node.ip node.port_nat sock))
      (return tt)

-- The loop of the case REP.
unfoldable pub meet_all : Udt → List EbcNode → M (Unit {0})
meet_all udt [] = return tt
meet_all udt (n ∷ ns) = do meet udt n; meet_all udt ns

-- The loop over the clients in the case GET_NODE: each is listed in the reply, and is sent `notice`.
unfoldable pub listed : Node → Option EbcNode
listed node = elim (get_ipv4 node.addr) [
  | none ↦ none
  | some ip ↦ elim (raw_port node.addr) [
    | none ↦ none
    | some port ↦
        some (record { id = node.id; ip = ip; port_nat = com_port_nat port node.nat; unknown = [] })
  ]
]

unfoldable pub notify_all : List (NodeId × Node) → List ℕ → ℕ → EbcNodes → M EbcNodes
notify_all [] notice n reply = return reply
notify_all ((id, node) ∷ clients) notice n reply = do
  entry ← defined (listed node)
  sock ← defined node.sock
  send_buffer sock notice n
  notify_all clients notice n (add_ebcnodes reply entry)

-- The node that the other clients are asked to punch towards: the address that the sender is seen
-- at, and the NAT type that it named.
abbrev pub punch_node : SockIn → ℕ → List ℕ → EbcNode
punch_node info nat src_id = record {
  id = src_id;
  ip = info.sin_addr;
  port_nat = com_port_nat info.sin_port nat;
  unknown = [];
}

-- That request, packed by a new packer into `buf`.
abbrev pub punch_notice : Wire → NodeId → EbcNode → Option Packed
punch_notice w self_id node =
    pack w (new_pack self_id) type_punch (a_node node) (some (zeros buffer_size)) buffer_size
      sub_empty zero_id

-- The reply, packed by the packer that holds the request.
abbrev pub node_reply : Wire → MsgPack → EbcNodes → Option Packed
node_reply w request reply =
    pack w request type_rep (some_nodes reply) (some (zeros buffer_size)) buffer_size sub_node
      zero_id

-- The server's part of the case GET_NODE. `ebcnodes(0)` of an empty list is undefined.
unfoldable pub introduce : Wire → Udt → ℕ → EbcMsg → M EbcNodes
introduce w udt sock msg = do
  first ← defined (ebcnodes_at (nodes msg) 0)
  let nat = par_nat first.port_nat
  info ← ask (getpeername sock) udt.a_name
  engine ← get
  notice ← defined (punch_notice w engine.self.id (punch_node info nat msg.src_id))
  bytes ← defined (notice.buffer)
  reply ← notify_all engine.client_node bytes notice.ret new_nodes
  memory ← fresh udt
  update (add_client_node memory msg.src_id info nat sock)
  return reply

-- The case GET_NODE: the reply is packed into the object that holds the request.
unfoldable pub on_get_node : Wire → Udt → ℕ → MsgPack → M (Unit {0})
on_get_node w udt sock request = do
  engine ← get
  reply ← (if engine.is_server then introduce w udt sock request.ebc_msg else return new_nodes)
  answer ← defined (node_reply w request reply)
  bytes ← defined (answer.buffer)
  send_buffer sock bytes answer.ret

-- The switch.
unfoldable pub dispatch : Wire → Udt → ℕ → MsgPack → M (Unit {0})
dispatch w udt sock request =
    let msg = request.ebc_msg in
    if msg.type == type_get_node
    then on_get_node w udt sock request
    else if msg.type == type_rep
    then (if msg.sub_type == sub_node then meet_all udt (nodes msg).ebcnodes else return tt)
    else if msg.type == type_punch
    then (defined (ebcnodes_at (nodes msg) 0) >>= meet udt)
    else return tt

-- What `unpack` answered.
abbrev pub when_ok : Result MsgPack → (MsgPack → M (Unit {0})) → M (Unit {0})
when_ok (ok p) f = f p
when_ok failed f = return tt
when_ok stuck f = fault

-- `handleMsg(sock, epollFd)`.
unfoldable pub handle_msg : Wire → Udt → ℕ → M (Unit {0})
handle_msg w udt sock = do
  got ← ask (recv sock buffer_size) udt.received
  engine ← get
  if_some got
      (λ bytes.
        when_ok
          (unpack w (new_pack engine.self.id) (received_into buffer_size bytes) (length bytes))
          (dispatch w udt sock))
      (return tt)
