-- ===== src/Proto/Nodes/Bounds.antt =====
-- How large a list of nodes can get.
use ebc_node.Base.{◌*◌, ◌≤◌, ◌≡◌, List, [], ◌∷◌, arith, length, All}
use ebc_node.Wire.{Wire}
use ebc_node.Wire.Laws.{WireLaws}
use ebc_node.Proto.Fields.{raw_unknown-nil}
use ebc_node.Proto.Fields.Bounds.{bytes_field_size-le, bytes_field_size-ge, uint32_field_size-le}
use ebc_node.Proto.Node
use ebc_node.Proto.Node.{EbcNode}
use ebc_node.Proto.Nodes.{message_sizes, byte_size}
use ebc_node.Proto.Nodes.Laws.{IsPlain}

-- A node with an id of 20 bytes at most.
abbrev pub IsSmall : EbcNode → Type 0
IsSmall n = IsPlain n × (length n.id ≤ 20)

pub All-IsPlain : (ns : List EbcNode) → All IsSmall ns → All IsPlain ns
All-IsPlain [] h = h
All-IsPlain (n ∷ ns) (p, h) = (p.0, All-IsPlain ns h)

module _ {w : Wire} (laws : WireLaws w) where
  node_size-le : (n : EbcNode) → IsSmall n → Node.byte_size w n ≤ 38
  unfolding Node.byte_size
  node_size-le n ((v, plain), short) =
      rw (plain, raw_unknown-nil w)
        (omega (
          arith,
          bytes_field_size-le laws n.id v.id_fits,
          uint32_field_size-le laws n.ip v.ip_fits,
          uint32_field_size-le laws n.port_nat v.port_nat_fits,
        ))

  message_sizes-le : (ns : List EbcNode) → All IsSmall ns → message_sizes w ns ≤ 43 * length ns
  unfolding message_sizes
  message_sizes-le [] h = omega arith
  message_sizes-le (n ∷ ns) (p, h) = omega (
    arith,
    node_size-le n p,
    laws.delimited_size-bound (Node.byte_size w n) (omega (arith, node_size-le n p)),
    message_sizes-le ns h,
  )

  -- A list of k such nodes takes 44 * k bytes at most.
  pub byte_size-le :
      (ns : List EbcNode)
      → All IsSmall ns
      → byte_size w (record { ebcnodes = ns; unknown = [] }) ≤ 44 * length ns
  unfolding byte_size
  byte_size-le ns h = rw (raw_unknown-nil w) (omega (arith, message_sizes-le ns h))

  -- And at least, with ids of 20 bytes.
  node_size-ge : (n : EbcNode) → length n.id ≡ 20 → 21 ≤ Node.byte_size w n
  unfolding Node.byte_size
  node_size-ge n h = omega (arith, bytes_field_size-ge laws n.id (omega arith))

  message_sizes-ge :
      (ns : List EbcNode)
      → All (λ (n : EbcNode). length n.id ≡ 20) ns
      → 21 * length ns ≤ message_sizes w ns
  unfolding message_sizes
  message_sizes-ge [] h = omega arith
  message_sizes-ge (n ∷ ns) (p, h) =
      omega (
        arith,
        node_size-ge n p,
        laws.delimited_size-le (Node.byte_size w n),
        message_sizes-ge ns h,
      )

  -- A list of k such nodes takes 22 * k bytes at least.
  pub byte_size-ge :
      (ns : List EbcNode)
      → All (λ (n : EbcNode). length n.id ≡ 20) ns
      → 22 * length ns ≤ byte_size w (record { ebcnodes = ns; unknown = [] })
  unfolding byte_size
  byte_size-ge ns h = omega (arith, message_sizes-ge ns h)
