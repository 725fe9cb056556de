-- ===== src/Engine/Message/Announce.antt =====
-- src/netengine.cpp: a client announces itself to a server: `handleMsg` from the bytes that are received
-- to the messages that are sent.
use ebc_node.Base.{
  ℕ, ◌^◌, ◌≤◌, ◌<◌, ◌≡◌, refl, ◌∙◌, inl, inr, true, some, List, ◌∷◌, arith, length, drop, All,
  take-append,
}
use ebc_node.Wire.{Wire}
use ebc_node.Wire.Laws.{WireLaws}
use ebc_node.SockAddr.{SockAddr, endpoint}
use ebc_node.Node.{NodeId, zero_id}
use ebc_node.Proto.Enums.{type_get_node, type_punch, sub_empty}
use ebc_node.Proto.Node.{EbcNode}
use ebc_node.Proto.Nodes.{ebcnodes_at}
use ebc_node.Proto.Msg.{EbcMsg, serialize}
use ebc_node.MsgPack.{MsgPack, a_node}
use ebc_node.MsgPack.Described.{described}
use ebc_node.Engine.World.{◌>>=◌, Udt, World, send, recv}
use ebc_node.Engine.World.Sends.{front-fits}
use ebc_node.Engine.Message.{buffer_size, zeros, on_get_node, dispatch, handle_msg}
use ebc_node.Engine.Message.Requests.{Told}
use ebc_node.MsgPack.Bounds.{node-IsPackable, listing-IsBody, described_node-le, described_nodes-le}
use ebc_node.Proto.Nodes.Bounds.{IsSmall}
use ebc_node.SockAddr.Fields.{endpoint_bytes}
use ebc_node.Utils.Ports.{com_port_nat-lt}
use ebc_node.Engine.Message.Reads.{after_recv, handle_msg-reads}
use ebc_node.Engine.Message.Introduction.{
  reply_msg, seen, entry, told_calls, with_client, introduce-tells, reply-packed,
}

-- The request of a client.
abbrev pub request_msg : Wire → NodeId → EbcNode → EbcMsg
request_msg w src first = described w src type_get_node (a_node first) sub_empty zero_id

-- What the server holds when it has read the request.
abbrev pub held : Wire → NodeId → NodeId → EbcNode → MsgPack
held w self_id src first = record { self_id = self_id; ebc_msg = request_msg w src first }

-- What is needed of the world `s` in which the request is handled: a server; ids of 20 bytes; clients
-- that it can list as `ns` and reach on the sockets `ss`; and, of UDT and `malloc`, an address of 32 and
-- a port of 16 bits for the new client, and 16 bytes of memory for them.
pub record CanServe (w : Wire) (udt : Udt) (sock : ℕ) (s : World) (first : EbcNode) (src : NodeId)
    (ns : List EbcNode) (ss : List ℕ) : Type 0 where
  pub serves : s.engine.is_server ≡ true
  pub self_size : length s.engine.self.id ≡ 20
  pub src_size : length src ≡ 20
  pub told : Told s.engine.client_node ns ss
  pub small : All IsSmall ns
  pub ip_fits : (seen udt sock s).sin_addr < 2 ^ 32
  pub port_fits : (seen udt sock s).sin_port < 2 ^ 16
  pub memory_fits : 16 ≤ length (udt.memory (told_calls w udt sock s first src ss))

-- The world of a server that has handled the request in the world `s`.
abbrev pub announced :
    Wire → Udt → ℕ → EbcNode → NodeId → List EbcNode → List ℕ → World → SockAddr → World
announced w udt sock first src ns ss s addr = record {
  engine = with_client sock first src addr s.engine;
  calls =
      send sock (serialize w (reply_msg w s.engine.self.id ns))
      ∷ told_calls w udt sock s first src ss;
}

module _ {w : Wire} (laws : WireLaws w) (udt : Udt) (sock : ℕ) (first : EbcNode) (src : NodeId)
    (ns : List EbcNode) (ss : List ℕ) where
  pub entry-IsSmall :
      (s : World) → CanServe w udt sock s first src ns ss → IsSmall (entry udt sock s first src)
  entry-IsSmall s can = (
    (
      record {
        id_fits = omega (arith, can.src_size);
        ip_fits = can.ip_fits;
        port_nat_fits = com_port_nat-lt _ _ can.port_fits;
      },
      refl,
    ),
    omega (arith, can.src_size),
  )

  on_get_node-tells :
      (s : World) (addr : SockAddr)
      → CanServe w udt sock s first src ns ss
      → length ns ≤ 137
      → endpoint
          (udt.memory (told_calls w udt sock s first src ss))
          (seen udt sock s).sin_port
          (seen udt sock s).sin_addr
        ≡ some addr
      → on_get_node w udt sock (held w s.engine.self.id src first) s
        ≡ some (tt, announced w udt sock first src ns ss s addr)
  unfolding on_get_node ebcnodes_at
  on_get_node-tells s addr can few made =
      let self_id = s.engine.self.id in
      let bytes = serialize w (reply_msg w self_id ns) in
      let rest = drop (length bytes) (zeros buffer_size) in
      let seen_small = entry-IsSmall s can in
      let tells =
        introduce-tells laws udt sock s first src ns ss addr can.self_size can.src_size can.told
          (request_msg w src first) refl refl
          (node-IsPackable laws type_punch sub_empty (entry udt sock s first src) (inr refl)
            seen_small)
          (omega (
            arith,
            described_node-le laws self_id zero_id (omega (arith, can.self_size)) (omega arith)
                type_punch sub_empty (entry udt sock s first src) (inr refl) seen_small,
          ))
          made in
      let answers =
        reply-packed laws self_id can.self_size (held w self_id src first) ns
          (refl, refl, refl, refl) (listing-IsBody laws ns can.small (omega (arith, few)))
          (omega (
            arith,
            few,
            described_nodes-le laws self_id zero_id (omega (arith, can.self_size)) (omega arith) ns
                can.small (omega (arith, few)),
          )) in
      simp can.serves (rw (◌>>=◌, tells, answers, front-fits bytes rest, take-append bytes rest))

  -- A server that receives the request of a client, where ids have 20 bytes, it has at most 137 clients,
  -- each with a socket and an address that can be read, and its memory and the new client's address
  -- are as `CanServe` says: it sends the notice of the client, with the address that it sees, to every
  -- client that it knows, in order; puts the client into its tables under its id, on this socket and
  -- with that address, by `put_client`; and answers it with the list of the clients that it knew before.
  pub handle_msg-announces :
      (s : World)
      → udt.received (recv sock buffer_size ∷ s.calls)
        ≡ some (serialize w (request_msg w src first))
      → IsSmall first
      → CanServe w udt sock (after_recv sock s) first src ns ss
      → length ns ≤ 137
      → (addr : SockAddr) × (endpoint
            (udt.memory (told_calls w udt sock (after_recv sock s) first src ss))
            (seen udt sock (after_recv sock s)).sin_port
            (seen udt sock (after_recv sock s)).sin_addr
          ≡ some addr)
        × (handle_msg w udt sock s
            ≡ some (tt, announced w udt sock first src ns ss (after_recv sock s) addr))
  unfolding dispatch
  handle_msg-announces s got small can few =
      let t = after_recv sock s in
      let made =
        endpoint_bytes (udt.memory (told_calls w udt sock t first src ss))
          (seen udt sock t).sin_port (seen udt sock t).sin_addr can.memory_fits in
      let request_fits =
        described_node-le laws src zero_id (omega (arith, can.src_size)) (omega arith) type_get_node
          sub_empty first (inl refl) small in
      (
        _,
        made,
        handle_msg-reads laws udt sock src zero_id (omega (arith, can.src_size)) (omega arith)
              type_get_node sub_empty (a_node first) s got
              (node-IsPackable laws type_get_node sub_empty first (inl refl) small)
              (omega (arith, request_fits))
            ∙ on_get_node-tells t _ can few made,
      )
