-- ===== src/MsgPack/RoundTrip.antt =====
-- What `unpack` reads back of what `pack` wrote on the other side.
use ebc_node.Base.{
  ℕ, ◌^◌, ◌≤◌, ◌<◌, ◌≡◌, refl, true, some, List, [], ◌++◌, arith, length, take, drop, take-append,
}
use ebc_node.Wire.{Wire, ok}
use ebc_node.Wire.Laws.{WireLaws}
use ebc_node.Utils.{net_version}
use ebc_node.Proto.Msg
use ebc_node.Proto.Msg.{
  Body, body_not_set, nodes_body, msg_body, EbcMsg, new_msg, clear, serialize, nodes,
}
use ebc_node.Proto.Msg.Laws.{IsMsg, length-serialize}
use ebc_node.Proto.Msg.RoundTrip.{merge_partial_msg-serialize}
use ebc_node.MsgPack.{MsgPack, Payload, pack, parse_from_array, unpack}
use ebc_node.MsgPack.Unpack.{IsAccepted, unpack_iff}
use ebc_node.MsgPack.Described.{
  described, described-IsMsg, described-IsAccepted, pack_body-described, IsPackable,
}
use ebc_node.MsgPack.Writes.{pack-writes}

module _ {w : Wire} (laws : WireLaws w) where
  -- Bytes behind the message are not looked at.
  pub unpack-serialize :
      (q : MsgPack) (m : EbcMsg) (rest : List ℕ)
      → IsMsg w m
      → m.unknown ≡ []
      → w.verify_utf8 m.version ≡ true
      → IsAccepted w m
      → unpack w q (serialize w m ++ rest) (Msg.byte_size w m) ≡ ok (record q { ebc_msg = m })
  unfolding parse_from_array clear
  unpack-serialize q m rest v plain utf8 a =
      (unpack_iff w q (record q { ebc_msg = m }) _ _).1 (parsed, a, refl)
    where
      parsed :
          parse_from_array w q.ebc_msg (take (Msg.byte_size w m) (serialize w m ++ rest)) ≡ ok m
      parsed = rw (
        ← length-serialize laws m v,
        take-append (serialize w m) rest,
        merge_partial_msg-serialize laws m v plain utf8,
      )

  pub version-utf8 : w.verify_utf8 net_version ≡ true
  version-utf8 = laws.verify_utf8_ascii net_version (omega arith)

  -- A fresh object packs the message that the call describes into a buffer that is large enough,
  -- and returns its size; any other object that unpacks that many bytes of the buffer then holds
  -- exactly this message and its own id. This holds for a node under GET_NODE or PUNCH and for nodes
  -- or a text under REP, within the limits of `IsPackable` and ids below 2 GB.
  pub unpack-pack :
      (self_id dst : List ℕ) (type sub : ℕ) (payload : Payload) (buffer : List ℕ) (size : ℕ)
      (q : MsgPack)
      → length self_id < 2 ^ 31
      → length dst < 2 ^ 31
      → IsPackable w type payload sub
      → Msg.byte_size w (described w self_id type payload sub dst) ≤ size
      → size ≤ length buffer
      → let m = described w self_id type payload sub dst in
        (sent : List ℕ) × (pack w
            (record { self_id = self_id; ebc_msg = new_msg })
            type
            payload
            (some buffer)
            size
            sub
            dst
          ≡ some (record {
            object = record { self_id = self_id; ebc_msg = m };
            buffer = some sent;
            ret = Msg.byte_size w m;
          }))
        × (unpack w q sent (Msg.byte_size w m) ≡ ok (record q { ebc_msg = m }))
  unpack-pack self_id dst type sub payload buffer size q hs hd v fits room =
      let m = described w self_id type payload sub dst in
      let valid = described-IsMsg w self_id dst type sub payload hs hd v in
      (
        serialize w m ++ drop (length (serialize w m)) buffer,
        rw (← length-serialize laws m valid) (
            pack-writes laws (record { self_id = self_id; ebc_msg = new_msg }) type payload buffer
              size sub dst m (pack_body-described w self_id dst type sub payload v) valid fits
              room),
        unpack-serialize q m _ valid refl version-utf8
            (described-IsAccepted w self_id dst type sub payload v),
      )
