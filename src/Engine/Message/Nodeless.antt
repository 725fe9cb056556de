-- ===== src/Engine/Message/Nodeless.antt =====
-- src/netengine.cpp: `handleMsg` on a message that passes `unpack` and lists no node.
use ebc_node.Base.{ℕ, ◌≤◌, ◌≡◌, ◌⊎◌, true, none, some, [], ◌∷◌, length}
use ebc_node.Wire.{Wire, ok}
use ebc_node.Wire.Laws.{WireLaws}
use ebc_node.Proto.Enums.{type_get_node, type_punch}
use ebc_node.Proto.Msg
use ebc_node.Proto.Msg.{EbcMsg, serialize, nodes}
use ebc_node.Proto.Msg.Laws.{IsMsg}
use ebc_node.MsgPack.{new_pack, unpack}
use ebc_node.MsgPack.Unpack.{IsAccepted}
use ebc_node.Engine.World.{Udt, World, recv}
use ebc_node.Engine.Message.{buffer_size, received_into, handle_msg}
use ebc_node.Engine.Message.Reads.{after_recv, unpack-received_any}
use ebc_node.Engine.Message.Requests.{dispatch-no_nodes}

-- Any message of the type PUNCH, at any node, or of the type GET_NODE, at a server, that lists no node, has
-- the checksum, a length that agrees and no unknown fields, and fits the buffer of 6144 bytes: from its
-- bytes `unpack` gets just this message and accepts it, the printing left aside, and `handleMsg`, which
-- then reads the first of no nodes, is undefined.
pub handle_msg-no_nodes :
    {w : Wire} (laws : WireLaws w) (udt : Udt) (sock : ℕ) (m : EbcMsg) (s : World)
    → IsMsg w m
    → m.unknown ≡ []
    → w.verify_utf8 m.version ≡ true
    → IsAccepted w m
    → Msg.byte_size w m ≤ buffer_size
    → (nodes m).ebcnodes ≡ []
    → (m.type ≡ type_punch) ⊎ ((m.type ≡ type_get_node) × (s.engine.is_server ≡ true))
    → udt.received (recv sock buffer_size ∷ s.calls) ≡ some (serialize w m)
    → (unpack w
          (new_pack s.engine.self.id)
          (received_into buffer_size (serialize w m))
          (length (serialize w m))
        ≡ ok (record { self_id = s.engine.self.id; ebc_msg = m }))
      × (handle_msg w udt sock s ≡ none)
unfolding handle_msg
handle_msg-no_nodes {w} laws udt sock m s valid plain utf8 accepted fits lacks kind got =
    let read = unpack-received_any laws s.engine.self.id m valid plain utf8 accepted fits in
    (
      read,
      rw (got, read)
          (dispatch-no_nodes w udt sock (record { self_id = s.engine.self.id; ebc_msg = m })
            (after_recv sock s) lacks kind),
    )
