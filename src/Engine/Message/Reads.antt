-- ===== src/Engine/Message/Reads.antt =====
-- src/netengine.cpp: `handleMsg` up to its switch, on the bytes of a message that another node packed, and
-- what a node does with the answer of a server and with its notice.
use ebc_node.Base.{ℕ, ◌^◌, ◌≤◌, ◌<◌, ◌≡◌, refl, true, some, List, [], ◌∷◌, arith, length}
use ebc_node.Base.{take_enough}
use ebc_node.Wire.{Wire, ok}
use ebc_node.Wire.Laws.{WireLaws}
use ebc_node.Proto.Enums.{type_rep, type_punch, sub_node, sub_empty}
use ebc_node.Proto.Node.{EbcNode}
use ebc_node.Proto.Nodes.{EbcNodes, ebcnodes_at}
use ebc_node.Proto.Msg
use ebc_node.Proto.Msg.{EbcMsg, serialize, nodes, nodes_body, clear, new_msg}
use ebc_node.Proto.Msg.Laws.{IsMsg, IsBody, length-serialize}
use ebc_node.MsgPack.{Payload, a_node, some_nodes, new_pack, unpack}
use ebc_node.MsgPack.Described.{described, described-IsMsg, described-IsAccepted, IsPackable}
use ebc_node.MsgPack.RoundTrip.{version-utf8, unpack-serialize}
use ebc_node.MsgPack.Unpack.{IsAccepted}
use ebc_node.Engine.World.{Udt, World, recv}
use ebc_node.Engine.Message.{buffer_size, received_into, dispatch, handle_msg, meet, meet_all}

-- The world after the read.
abbrev pub after_recv : ℕ → World → World
after_recv sock s = record s { calls = recv sock buffer_size ∷ s.calls }

-- What `unpack` makes of a message in the buffer, if the message passes its checks.
pub unpack-received_any :
    {w : Wire} (laws : WireLaws w) (self_id : List ℕ) (m : EbcMsg)
    → IsMsg w m
    → m.unknown ≡ []
    → w.verify_utf8 m.version ≡ true
    → IsAccepted w m
    → Msg.byte_size w m ≤ buffer_size
    → unpack w
        (new_pack self_id)
        (received_into buffer_size (serialize w m))
        (length (serialize w m))
      ≡ ok (record { self_id = self_id; ebc_msg = m })
unfolding new_pack clear
unpack-received_any {w} laws self_id m valid plain utf8 accepted fits =
    rw
      (
        length-serialize laws m valid,
        take_enough buffer_size (serialize w m)
            (omega (arith, length-serialize laws m valid, fits)),
      )
      (unpack-serialize laws (new_pack self_id) m _ valid plain utf8 accepted)

module _ {w : Wire} (laws : WireLaws w) (udt : Udt) (sock : ℕ) (src dst : List ℕ)
    (src_fits : length src < 2 ^ 31) (dst_fits : length dst < 2 ^ 31) where
  -- What `unpack` makes of such a message in the buffer.
  pub unpack-received :
      (self_id : List ℕ) (type sub : ℕ) (payload : Payload)
      → let m = described w src type payload sub dst in
        IsPackable w type payload sub
        → Msg.byte_size w m ≤ buffer_size
        → unpack w
            (new_pack self_id)
            (received_into buffer_size (serialize w m))
            (length (serialize w m))
          ≡ ok (record { self_id = self_id; ebc_msg = m })
  unpack-received self_id type sub payload v fits =
      unpack-received_any laws self_id (described w src type payload sub dst)
        (described-IsMsg w src dst type sub payload src_fits dst_fits v) refl (version-utf8 laws)
        (described-IsAccepted w src dst type sub payload v) fits

  pub handle_msg-reads :
      (type sub : ℕ) (payload : Payload) (s : World)
      → let m = described w src type payload sub dst in
        udt.received (recv sock buffer_size ∷ s.calls) ≡ some (serialize w m)
        → IsPackable w type payload sub
        → Msg.byte_size w m ≤ buffer_size
        → handle_msg w udt sock s
          ≡ dispatch w udt sock
              (record { self_id = s.engine.self.id; ebc_msg = m })
              (after_recv sock s)
  unfolding handle_msg
  handle_msg-reads type sub payload s got v fits =
      rw (got, unpack-received s.engine.self.id type sub payload v fits)

  -- A node that receives the list of a server, within the buffer: it punches towards every node of the
  -- list, in order, and does nothing else.
  pub handle_msg-meets_all :
      (ns : EbcNodes) (s : World)
      → udt.received (recv sock buffer_size ∷ s.calls)
        ≡ some (serialize w (described w src type_rep (some_nodes ns) sub_node dst))
      → IsBody w (nodes_body ns)
      → Msg.byte_size w (described w src type_rep (some_nodes ns) sub_node dst) ≤ buffer_size
      → handle_msg w udt sock s ≡ meet_all udt ns.ebcnodes (after_recv sock s)
  unfolding dispatch
  handle_msg-meets_all ns s got v fits =
      handle_msg-reads type_rep sub_node (some_nodes ns) s got (refl, refl, v) fits

  -- A node that receives the notice of a new client, within the buffer: it punches towards that client,
  -- and does nothing else.
  pub handle_msg-meets :
      (n : EbcNode) (s : World)
      → udt.received (recv sock buffer_size ∷ s.calls)
        ≡ some (serialize w (described w src type_punch (a_node n) sub_empty dst))
      → IsPackable w type_punch (a_node n) sub_empty
      → Msg.byte_size w (described w src type_punch (a_node n) sub_empty dst) ≤ buffer_size
      → handle_msg w udt sock s ≡ meet udt n (after_recv sock s)
  unfolding dispatch ebcnodes_at
  handle_msg-meets n s got v fits = handle_msg-reads type_punch sub_empty (a_node n) s got v fits
