-- ===== src/Proto/Msg/Bounds.antt =====
-- How large a message can get.
use ebc_node.Base.{◌+◌, ◌≤◌, ◌≡◌, [], arith, length}
use ebc_node.Wire.{Wire}
use ebc_node.Wire.Laws.{WireLaws}
use ebc_node.Proto.Fields.{raw_unknown-nil}
use ebc_node.Proto.Fields.Bounds.{bytes_field_size-le, uint32_field_size-le, enum_field_size-le}
use ebc_node.Proto.Msg.{EbcMsg, body_size, byte_size}
use ebc_node.Proto.Msg.Laws.{IsMsg}

module _ {w : Wire} (laws : WireLaws w) where
  -- A message within the limits of `IsMsg` and without unknown fields takes at most 54 bytes more than
  -- its three strings and its body.
  pub byte_size-le :
      (m : EbcMsg)
      → IsMsg w m
      → m.unknown ≡ []
      → byte_size w m
        ≤ 54 + length m.version + length m.src_id + length m.dst_id + body_size w m.body
  unfolding byte_size
  byte_size-le m v plain =
      rw (plain, raw_unknown-nil w)
        (omega (
          arith,
          bytes_field_size-le laws m.version v.version_fits,
          bytes_field_size-le laws m.src_id v.src_id_fits,
          bytes_field_size-le laws m.dst_id v.dst_id_fits,
          uint32_field_size-le laws m.head v.head_fits,
          uint32_field_size-le laws m.ttl v.ttl_fits,
          uint32_field_size-le laws m.id v.id_fits,
          enum_field_size-le laws m.type v.type_fits,
          enum_field_size-le laws m.sub_type v.sub_type_fits,
          uint32_field_size-le laws m.length_ v.length_fits,
        ))
