-- ===== src/Engine/Message/Overflow.antt =====
-- src/netengine.cpp: a reply that is larger than its buffer of 6144 bytes.
use ebc_node.Base.{
  ℕ, ◌≤◌, ◌<◌, ◌≡◌, refl, ◌∙◌, inl, inr, false, none, some, List, ◌∷◌, arith, leb, length, All,
}
use ebc_node.Wire.{Wire}
use ebc_node.Wire.Laws.{WireLaws}
use ebc_node.SockAddr.Fields.{endpoint_bytes}
use ebc_node.Node.{NodeId, zero_id}
use ebc_node.Proto.Enums.{type_get_node, type_rep, type_punch, sub_empty, sub_node}
use ebc_node.Proto.Node.{EbcNode}
use ebc_node.Proto.Nodes.{ebcnodes_at}
use ebc_node.Proto.Nodes.Bounds.{IsSmall}
use ebc_node.Proto.Msg
use ebc_node.Proto.Msg.{serialize, nodes_body}
use ebc_node.Proto.Msg.Laws.{IsBody}
use ebc_node.MsgPack.{MsgPack, a_node, some_nodes}
use ebc_node.MsgPack.Described.{described-IsMsg}
use ebc_node.MsgPack.Bounds.{
  listing, listing-IsBody, node-IsPackable, described_node-le, described_nodes-ge,
}
use ebc_node.MsgPack.Writes.{IsReady, pack_body-nodes, pack-leaves}
use ebc_node.Engine.World.{◌>>=◌, Udt, World, recv}
use ebc_node.Engine.Message.{buffer_size, zeros, node_reply, on_get_node, dispatch, handle_msg}
use ebc_node.Engine.Message.Introduction.{
  seen, entry, told_calls, reply_msg, introduce-tells, length-zeros,
}
use ebc_node.Engine.Message.Reads.{after_recv, handle_msg-reads}
use ebc_node.Engine.Message.Announce.{CanServe, request_msg, held, entry-IsSmall}

-- Every entry of such a list counts with 22 bytes at least.
abbrev pub AreFull : List EbcNode → Type 0
AreFull = All (λ (n : EbcNode). length n.id ≡ 20)

module _ {w : Wire} (laws : WireLaws w) where
  reply-left :
      (self_id : NodeId) (p : MsgPack) (ns : List EbcNode)
      → length self_id ≡ 20
      → IsReady self_id p
      → IsBody w (nodes_body (listing ns))
      → buffer_size < Msg.byte_size w (reply_msg w self_id ns)
      → node_reply w p (listing ns)
        ≡ some (record {
          object = record p { ebc_msg = reply_msg w self_id ns };
          buffer = some (zeros buffer_size);
          ret = Msg.byte_size w (reply_msg w self_id ns);
        })
  reply-left self_id p ns id_size ready v large =
      pack-leaves laws p type_rep (some_nodes (listing ns)) (zeros buffer_size) buffer_size sub_node
        zero_id (reply_msg w self_id ns)
        (pack_body-nodes w self_id p zero_id ready (listing ns) (v.2))
        (described-IsMsg w self_id zero_id type_rep sub_node (some_nodes (listing ns)) (omega arith)
          (omega arith) (refl, refl, v))
        large

  module _ (udt : Udt) (sock : ℕ) (first : EbcNode) (src : NodeId) (ns : List EbcNode)
      (ss : List ℕ) where
    on_get_node-overflows :
        (s : World)
        → CanServe w udt sock s first src ns ss
        → AreFull ns
        → 280 ≤ length ns
        → length ns ≤ 1000000
        → on_get_node w udt sock (held w s.engine.self.id src first) s ≡ none
    unfolding on_get_node ebcnodes_at
    on_get_node-overflows s can full many bounded =
        let self_id = s.engine.self.id in
        let seen_small = entry-IsSmall laws udt sock first src ns ss s can in
        let made =
          endpoint_bytes (udt.memory (told_calls w udt sock s first src ss))
            (seen udt sock s).sin_port (seen udt sock s).sin_addr can.memory_fits in
        let tells =
          introduce-tells laws udt sock s first src ns ss _ can.self_size can.src_size can.told
            (request_msg w src first) refl refl
            (node-IsPackable laws type_punch sub_empty (entry udt sock s first src) (inr refl)
              seen_small)
            (omega (
              arith,
              described_node-le laws self_id zero_id (omega (arith, can.self_size)) (omega arith)
                  type_punch sub_empty (entry udt sock s first src) (inr refl) seen_small,
            ))
            made in
        let large : buffer_size < Msg.byte_size w (reply_msg w self_id ns) = omega (
          arith,
          described_nodes-ge laws self_id zero_id (omega (arith, can.self_size)) (omega arith) ns
              full,
        ) in
        let left =
          reply-left self_id (held w self_id src first) ns can.self_size (refl, refl, refl, refl)
            (listing-IsBody laws ns can.small bounded) large in
        simp can.serves (rw (◌>>=◌, tells, left, beyond _ large) refl)
      where
        beyond : (n : ℕ) → buffer_size < n → leb n (length (zeros buffer_size)) ≡ false
        beyond n h = ground (arith, length-zeros buffer_size)

    -- A server that receives the request of a client, where ids have 20 bytes and it has between 280 and a
    -- million clients, each with a socket and an address that can be read, and its memory and the new
    -- client's address are as `CanServe` says: the reply is larger than the buffer of 6144 bytes that it
    -- is packed into, and to send it reads behind that buffer, which is undefined.
    pub handle_msg-overflows :
        (s : World)
        → udt.received (recv sock buffer_size ∷ s.calls)
          ≡ some (serialize w (request_msg w src first))
        → IsSmall first
        → CanServe w udt sock (after_recv sock s) first src ns ss
        → AreFull ns
        → 280 ≤ length ns
        → length ns ≤ 1000000
        → handle_msg w udt sock s ≡ none
    unfolding dispatch
    handle_msg-overflows s got small can full many bounded =
        let request_fits =
          described_node-le laws src zero_id (omega (arith, can.src_size)) (omega arith)
            type_get_node sub_empty first (inl refl) small in
        handle_msg-reads laws udt sock src zero_id (omega (arith, can.src_size)) (omega arith)
          type_get_node sub_empty (a_node first) s got
          (node-IsPackable laws type_get_node sub_empty first (inl refl) small)
          (omega (arith, request_fits))
        ∙ on_get_node-overflows (after_recv sock s) can full many bounded
