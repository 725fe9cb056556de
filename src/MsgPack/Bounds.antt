-- ===== src/MsgPack/Bounds.antt =====
-- How large the messages are that the program packs of nodes, where ids have 20 bytes at most.
use ebc_node.Base.{ℕ, ◌+◌, ◌*◌, ◌≤◌, ◌≡◌, refl, ◌⊎◌, List, [], ◌∷◌, arith, length, All}
use ebc_node.Wire.{Wire}
use ebc_node.Wire.Laws.{WireLaws}
use ebc_node.Proto.Enums.{type_get_node, type_rep, type_punch, sub_node}
use ebc_node.Proto.Node.{EbcNode}
use ebc_node.Proto.Nodes
use ebc_node.Proto.Nodes.{EbcNodes}
use ebc_node.Proto.Nodes.Bounds as NodesBounds
use ebc_node.Proto.Nodes.Bounds.{IsSmall, All-IsPlain}
use ebc_node.Proto.Msg
use ebc_node.Proto.Msg.{body_size, nodes_body}
use ebc_node.Proto.Msg.Bounds.{byte_size-le}
use ebc_node.Proto.Msg.Laws.{IsBody}
use ebc_node.MsgPack.{a_node, some_nodes}
use ebc_node.MsgPack.Described.{described, described-IsMsg, IsPackable, one_node}

-- A list of these nodes.
abbrev pub listing : List EbcNode → EbcNodes
listing ns = record { ebcnodes = ns; unknown = [] }

module _ {w : Wire} (laws : WireLaws w) where
  pub node-IsPackable :
      (type sub : ℕ) (n : EbcNode)
      → (type ≡ type_get_node) ⊎ (type ≡ type_punch)
      → IsSmall n
      → IsPackable w type (a_node n) sub
  node-IsPackable type sub n t small =
      (t, small.0, omega (arith, NodesBounds.byte_size-le laws (n ∷ []) (small, tt)))

  pub listing-IsBody :
      (ns : List EbcNode)
      → All IsSmall ns
      → length ns ≤ 1000000
      → IsBody w (nodes_body (listing ns))
  listing-IsBody ns small few =
      (All-IsPlain ns small, refl, omega (arith, NodesBounds.byte_size-le laws ns small))

  module _ (self_id dst : List ℕ) (self_size : length self_id ≤ 20)
      (dst_size : length dst ≤ 20) where
    pub described_node-le :
        (type sub : ℕ) (n : EbcNode)
        → (type ≡ type_get_node) ⊎ (type ≡ type_punch)
        → IsSmall n
        → Msg.byte_size w (described w self_id type (a_node n) sub dst) ≤ 130
    unfolding body_size
    described_node-le type sub n t small = omega (
      arith,
      byte_size-le laws (described w self_id type (a_node n) sub dst)
          (described-IsMsg w self_id dst type sub (a_node n) (omega arith) (omega arith)
            (node-IsPackable type sub n t small))
          refl,
      laws.delimited_size-bound (Nodes.byte_size w (one_node n))
          (omega (arith, NodesBounds.byte_size-le laws (n ∷ []) (small, tt))),
      NodesBounds.byte_size-le laws (n ∷ []) (small, tt),
    )

    pub described_nodes-le :
        (ns : List EbcNode)
        → All IsSmall ns
        → length ns ≤ 1000
        → Msg.byte_size w (described w self_id type_rep (some_nodes (listing ns)) sub_node dst)
          ≤ 106 + 44 * length ns
    unfolding body_size
    described_nodes-le ns small few = omega (
      arith,
      byte_size-le laws (described w self_id type_rep (some_nodes (listing ns)) sub_node dst)
          (described-IsMsg w self_id dst type_rep sub_node (some_nodes (listing ns)) (omega arith)
            (omega arith) (refl, refl, listing-IsBody ns small (omega arith)))
          refl,
      laws.delimited_size-bound (Nodes.byte_size w (listing ns))
          (omega (arith, NodesBounds.byte_size-le laws ns small)),
      NodesBounds.byte_size-le laws ns small,
    )

    pub described_nodes-ge :
        (ns : List EbcNode)
        → All (λ (n : EbcNode). length n.id ≡ 20) ns
        → 22 * length ns
          ≤ Msg.byte_size w (described w self_id type_rep (some_nodes (listing ns)) sub_node dst)
    unfolding body_size Msg.byte_size
    described_nodes-ge ns ids = omega (
      arith,
      laws.delimited_size-le (Nodes.byte_size w (listing ns)),
      NodesBounds.byte_size-ge laws ns ids,
    )
