-- ===== src/Tests/Protocol.antt =====
-- Witnesses for a client, its server and its peers, and the messages between them.
use ebc_node.Base.{ℕ, ◌≡◌, refl, some, List, [], ◌∷◌, arith}
use ebc_node.Utils.{com_port_nat}
use ebc_node.Proto.Enums.{type_rep, sub_node}
use ebc_node.Proto.Node.{EbcNode}
use ebc_node.Proto.Nodes.Bounds.{IsSmall}
use ebc_node.Proto.Msg.{
  EbcMsg, new_msg, serialize, byte_size, body_size, merge_partial_msg, step, clear,
}
use ebc_node.Proto.Loop.{merge_partial, parse_loop}
use ebc_node.Proto.Fields.{
  uint32_field, bytes_field, enum_field, raw_unknown, bytes_field_size, uint32_field_size,
  enum_field_size,
}
use ebc_node.Proto.Nodes
use ebc_node.Engine.Message.Echo.{echo, Echoed, handle_msg-echoes}
use ebc_node.Engine.Message.{buffer_size, received_into}
use ebc_node.Wire.{ok}
use ebc_node.Proto.Enums.{type_get_node}
use ebc_node.MsgPack.{parse_from_array, check, length_agrees, msg_head, new_pack, unpack}
use ebc_node.Base.{false, replicate, length}
use ebc_node.MsgPack.{some_nodes}
use ebc_node.MsgPack.Described.{described}
use ebc_node.MsgPack.Bounds.{listing}
use ebc_node.Engine.World.{World, Udt, send}
use ebc_node.Engine.Message.{handle_msg}
use ebc_node.Engine.Message.Reads.{after_recv}
use ebc_node.Engine.Message.Meets.{AllMet, handle_msg-AllMet}
use ebc_node.Engine.Message.Announce.{request_msg}
use ebc_node.Engine.Client.{send_get_node, self_node}
use ebc_node.Engine.Client.Request.{send_get_node-sends}
use ebc_node.Tests.SimpleWire.{simple, simple-WireLaws}
use ebc_node.Tests.Tables.{id_of, idle, with_client}
use ebc_node.Tests.Engines.{a_udt, before, entry}

-- What a new client asks.
abbrev pub asking : EbcNode
asking = record { id = []; ip = 0; port_nat = 0; unknown = [] }

pub asking-IsSmall : IsSmall asking
asking-IsSmall = (
  (record { id_fits = omega arith; ip_fits = omega arith; port_nat_fits = omega arith }, refl),
  omega arith,
)

pub entry-IsSmall : IsSmall entry
unfolding com_port_nat
entry-IsSmall = (
  (record { id_fits = omega arith; ip_fits = omega arith; port_nat_fits = omega arith }, refl),
  omega arith,
)

-- A UDT from which these bytes are received.
abbrev pub hears : List ℕ → Udt
hears bytes = record a_udt { received = λ cs. some bytes }

abbrev pub asked : Udt
asked = hears (serialize simple (request_msg simple (id_of 3) asking))

send_get_node-sends_example :
    send_get_node simple 4 before
    ≡ some (
      tt,
      record before {
        calls =
            send 4 (serialize simple (request_msg simple (id_of 1) (self_node with_client.self)))
            ∷ [];
      },
    )
send_get_node-sends_example = send_get_node-sends simple-WireLaws 4 before refl

abbrev told : Udt
told = hears (
    serialize simple
      (described simple (id_of 1) type_rep (some_nodes (listing (entry ∷ []))) sub_node (id_of 3)))

handle_msg-AllMet_example :
    (s' : World) × (handle_msg simple told 4 before ≡ some (tt, s'))
    × AllMet told (entry ∷ []) (after_recv 4 before) s'
handle_msg-AllMet_example =
    handle_msg-AllMet simple-WireLaws told 4 (id_of 1) (id_of 3) (entry ∷ []) before
      (λ calls. omega arith) refl refl (entry-IsSmall, tt) (refl, tt) (omega arith) refl

-- A request with one unknown field, of 6100 bytes, which fills most of the buffer.
abbrev padded : EbcMsg
padded = record new_msg {
  head = msg_head;
  type = type_get_node;
  unknown = simple.write_delimited 12 (replicate 6100 0);
}

abbrev its_bytes : List ℕ
its_bytes = serialize simple padded

padded-accepted :
    unpack simple (new_pack (id_of 1)) (received_into buffer_size its_bytes) (length its_bytes)
    ≡ ok (record { self_id = id_of 1; ebc_msg = padded })
unfolding unpack serialize parse_from_array merge_partial_msg merge_partial parse_loop uint32_field
    step bytes_field enum_field raw_unknown check length_agrees clear new_pack
padded-accepted = refl

abbrev no_server : World
no_server = record { engine = record idle { is_server = false }; calls = [] }

handle_msg-echoes_example : Echoed simple (hears its_bytes) 4 no_server (echo (id_of 1) padded)
handle_msg-echoes_example =
    handle_msg-echoes simple-WireLaws (hears its_bytes) 4 its_bytes
      (record { self_id = id_of 1; ebc_msg = padded }) no_server refl padded-accepted refl refl refl
      (omega arith) (omega arith)

-- That reply does not fit.
its_reply : byte_size simple (echo (id_of 1) padded) ≡ 6194
unfolding byte_size raw_unknown bytes_field_size uint32_field_size enum_field_size body_size
    Nodes.byte_size
its_reply = refl
