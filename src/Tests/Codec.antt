-- ===== src/Tests/Codec.antt =====
-- Witnesses for the messages and the packer.
use ebc_node.Base.{
  ℕ, ◌≡◌, refl, ◌≢◌, ◌↔◌, true, none, some, List, [], ◌∷◌, arith, length, take, replicate,
}
use ebc_node.Wire.{ok, stuck}
use ebc_node.Proto.Enums.{type_rep, sub_node}
use ebc_node.Proto.Fields.{bytes_field_size, uint32_field_size, enum_field_size, raw_unknown}
use ebc_node.Proto.Node.{EbcNode}
use ebc_node.Proto.Node
use ebc_node.Proto.Nodes.{EbcNodes, message_sizes}
use ebc_node.Proto.Nodes
use ebc_node.Proto.Nodes.Laws.{IsPlain}
use ebc_node.Proto.Msg
use ebc_node.Proto.Msg.{
  EbcMsg, new_msg, nodes_body, msg_body, merge_partial_msg, serialize, copy_from, nodes, body_size,
}
use ebc_node.Proto.Msg.Laws.{IsMsg, length-serialize}
use ebc_node.Proto.Msg.RoundTrip.{merge_partial_msg-serialize}
use ebc_node.MsgPack.{MsgPack, some_nodes, pack, unpack, check, length_agrees, parse_from_array}
use ebc_node.MsgPack.Unpack.{IsAccepted, unpack_iff, unpack-ne-stuck}
use ebc_node.MsgPack.Described.{IsPackable, described}
use ebc_node.MsgPack.RoundTrip.{unpack-pack}
use ebc_node.Proto.Union.{shared_ctor, freed}
use ebc_node.Proto.Union.Refines.{
  BodyCall, reads_msg, asks_nodes, reads_nodes, sets_nodes, sets_msg, releases_msg, allocates_msg,
  seen, expected, run, replay, run-refines,
}
use ebc_node.MsgPack.Writes.{pack_too_small}
use ebc_node.Tests.SimpleWire.{simple, simple-WireLaws}

abbrev two_bytes : List ℕ
two_bytes = 7 ∷ 9 ∷ []

abbrev a_peer : EbcNode
a_peer = record { id = two_bytes; ip = 16777343; port_nat = 268435456; unknown = [] }

abbrev peers : EbcNodes
peers = record { ebcnodes = a_peer ∷ a_peer ∷ []; unknown = [] }

a_peer-IsPlain : IsPlain a_peer
a_peer-IsPlain =
    (record { id_fits = omega arith; ip_fits = omega arith; port_nat_fits = omega arith }, refl)

peers-size : Nodes.byte_size simple peers ≡ 52
unfolding Nodes.byte_size message_sizes Node.byte_size bytes_field_size uint32_field_size
    raw_unknown
peers-size = refl

abbrev a_reply : EbcMsg
a_reply = described simple two_bytes type_rep (some_nodes peers) sub_node two_bytes

a_reply-IsPackable : IsPackable simple type_rep (some_nodes peers) sub_node
a_reply-IsPackable =
    (refl, refl, (((a_peer-IsPlain, (a_peer-IsPlain, tt))), refl, omega (arith, peers-size)))

a_reply-size : Msg.byte_size simple a_reply ≡ 110
unfolding Msg.byte_size body_size Nodes.byte_size message_sizes Node.byte_size bytes_field_size
    uint32_field_size enum_field_size raw_unknown
a_reply-size = refl

a_reply-IsMsg : IsMsg simple a_reply
a_reply-IsMsg = record {
  version_fits = omega arith;
  src_id_fits = omega arith;
  dst_id_fits = omega arith;
  head_fits = omega arith;
  ttl_fits = omega arith;
  id_fits = omega arith;
  type_fits = omega arith;
  sub_type_fits = omega arith;
  length_fits = omega (arith, peers-size);
  body_fits = ((a_peer-IsPlain, (a_peer-IsPlain, tt)), refl, omega (arith, peers-size));
}

abbrev a_buffer : List ℕ
a_buffer = replicate 200 0

abbrev receiver : MsgPack
receiver = record { self_id = 3 ∷ []; ebc_msg = new_msg }

abbrev sender : MsgPack
sender = record { self_id = two_bytes; ebc_msg = new_msg }

unpack-pack_example :
    (sent : List ℕ) × (pack simple sender type_rep
        (some_nodes peers)
        (some a_buffer)
        200
        sub_node
        two_bytes
      ≡ some (record {
        object = record { self_id = two_bytes; ebc_msg = a_reply };
        buffer = some sent;
        ret = Msg.byte_size simple a_reply;
      }))
    × (unpack simple receiver sent (Msg.byte_size simple a_reply)
        ≡ ok (record receiver { ebc_msg = a_reply }))
unpack-pack_example =
    unpack-pack simple-WireLaws two_bytes two_bytes type_rep sub_node (some_nodes peers) a_buffer
      200 receiver (omega arith) (omega arith) a_reply-IsPackable (omega (arith, a_reply-size))
      (omega arith)

pack_too_small_example :
    pack simple sender type_rep (some_nodes peers) (some (0 ∷ 0 ∷ [])) 2 sub_node two_bytes
    ≡ some (record {
      object = record { self_id = two_bytes; ebc_msg = a_reply };
      buffer = some (0 ∷ 0 ∷ []);
      ret = Msg.byte_size simple a_reply;
    })
pack_too_small_example =
    pack_too_small simple-WireLaws two_bytes two_bytes type_rep sub_node (some_nodes peers)
      (0 ∷ 0 ∷ []) 2 (omega arith) (omega arith) a_reply-IsPackable (omega (arith, a_reply-size))
      (omega (arith, a_reply-size))

merge_partial_msg-serialize_example :
    merge_partial_msg simple (serialize simple a_reply) new_msg ≡ ok (a_reply, true)
merge_partial_msg-serialize_example =
    merge_partial_msg-serialize simple-WireLaws a_reply a_reply-IsMsg refl refl

length-serialize_example : length (serialize simple a_reply) ≡ Msg.byte_size simple a_reply
length-serialize_example = length-serialize simple-WireLaws a_reply a_reply-IsMsg

unpack-ne-stuck_example : unpack simple receiver (90 ∷ 1 ∷ []) 2 ≢ stuck
unpack-ne-stuck_example = unpack-ne-stuck simple-WireLaws receiver (90 ∷ 1 ∷ []) 2

abbrev received : MsgPack
received = record receiver { ebc_msg = a_reply }

unpack_iff_example : (unpack simple receiver (serialize simple a_reply) 200 ≡ ok received) ↔ (
    (parse_from_array simple new_msg (take 200 (serialize simple a_reply)) ≡ ok a_reply)
    × IsAccepted simple a_reply
    × (received.self_id ≡ receiver.self_id))
unpack_iff_example = unpack_iff simple receiver received (serialize simple a_reply) 200

a_reply-checked : check simple a_reply ≡ ok a_reply
unfolding check length_agrees
a_reply-checked = ground arith

-- A list, a text over it, the text released, and a text handed over to the empty body.
abbrev body_calls : List BodyCall
body_calls =
    sets_nodes peers
    ∷ sets_msg (104 ∷ 105 ∷ [])
    ∷ reads_msg
    ∷ asks_nodes
    ∷ reads_nodes
    ∷ releases_msg
    ∷ allocates_msg (some (104 ∷ []))
    ∷ allocates_msg (some [])
    ∷ []

run-refines_example :
    seen (run body_calls (shared_ctor freed)) ≡ expected (replay body_calls Msg.body_not_set)
run-refines_example = run-refines body_calls freed

-- The last of these calls is undefined.
body_calls_end : replay body_calls Msg.body_not_set ≡ none
unfolding replay
body_calls_end = refl
