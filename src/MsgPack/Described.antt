-- ===== src/MsgPack/Described.antt =====
-- src/msgpack.cpp: the message that a call of `pack` describes, and that a fresh object builds it.
use ebc_node.Base.{ℕ, ◌%◌, ◌^◌, ◌<◌, ◌≡◌, ◌⊎◌, some, List, [], ◌∷◌, arith, length}
use ebc_node.Wire.{Wire}
use ebc_node.Utils.{net_version}
use ebc_node.Proto.Enums.{type_get_node, type_rep, type_punch, sub_node, sub_data}
use ebc_node.Proto.Node.{EbcNode}
use ebc_node.Proto.Node.Laws as NodeLaws
use ebc_node.Proto.Nodes
use ebc_node.Proto.Nodes.{EbcNodes}
use ebc_node.Proto.Nodes.Laws.{IsPlain}
use ebc_node.Proto.Msg.{Body, body_not_set, nodes_body, msg_body, EbcMsg, new_msg}
use ebc_node.Proto.Msg.Laws.{IsMsg, IsBody}
use ebc_node.MsgPack.{
  Payload, null, a_node, some_nodes, text, msg_head, pack_header, pack_body, pack_node, pack_nodes,
  pack_text,
}
use ebc_node.MsgPack.Unpack.{IsAccepted}

-- A list of one node.
abbrev pub one_node : EbcNode → EbcNodes
one_node n = record { ebcnodes = n ∷ []; unknown = [] }

-- The calls that the program makes: a node under GET_NODE or PUNCH, a list of nodes or a text under
-- REP; nodes as the types guarantee them, without unknown fields and within the limit of 2 GB.
abbrev pub IsPackable : Wire → ℕ → Payload → ℕ → Type 0
IsPackable w type null sub = ⊥
IsPackable w type (a_node n) sub =
    ((type ≡ type_get_node) ⊎ (type ≡ type_punch))
    × IsPlain n
    × (Nodes.byte_size w (one_node n) < 2 ^ 31)
IsPackable w type (some_nodes ns) sub =
    (type ≡ type_rep) × (sub ≡ sub_node) × IsBody w (nodes_body ns)
IsPackable w type (text s) sub = (type ≡ type_rep) × (sub ≡ sub_data) × (length s < 2 ^ 31)

-- The message that such a call describes.
abbrev carried : Payload → Body
carried null = body_not_set
carried (a_node n) = nodes_body (one_node n)
carried (some_nodes ns) = nodes_body ns
carried (text s) = msg_body s

abbrev measure : Wire → Payload → ℕ
measure w null = 0
measure w (a_node n) = Nodes.byte_size w (one_node n)
measure w (some_nodes ns) = Nodes.byte_size w ns
measure w (text s) = length s

abbrev when_rep {ℓ} : {A : Type ℓ} → Payload → A → A → A
when_rep null x y = y
when_rep (a_node n) x y = y
when_rep (some_nodes ns) x y = x
when_rep (text s) x y = x

abbrev pub described : Wire → List ℕ → ℕ → Payload → ℕ → List ℕ → EbcMsg
described w self_id type payload sub dst = record {
  version = net_version;
  src_id = self_id;
  dst_id = when_rep payload dst [];
  head = msg_head;
  ttl = 0;
  id = 0;
  type = type;
  sub_type = when_rep payload sub 0;
  length_ = measure w payload;
  body = carried payload;
  unknown = [];
}

module _ (w : Wire) (self_id dst : List ℕ) where
  pack_node-described :
      (type sub : ℕ) (n : EbcNode)
      → IsPackable w type (a_node n) sub
      → pack_node w (pack_header (record { self_id = self_id; ebc_msg = new_msg }) type) n
        ≡ described w self_id type (a_node n) sub dst
  unfolding pack_node pack_header
  pack_node-described type sub n (t, v, h) = simp (NodeLaws.copy_from-eq, small)
    where
      small : Nodes.byte_size w (one_node n) % 2 ^ 32 ≡ Nodes.byte_size w (one_node n)
      small = omega arith

  pack_nodes-described :
      (type sub : ℕ) (ns : EbcNodes)
      → IsPackable w type (some_nodes ns) sub
      → pack_nodes w
          (record (pack_header (record { self_id = self_id; ebc_msg = new_msg }) type) {
            dst_id = dst;
            sub_type = sub;
          })
          ns
        ≡ described w self_id type (some_nodes ns) sub dst
  unfolding pack_nodes pack_header Nodes.copy_from
  pack_nodes-described type sub ns (t, s, v) = simp small
    where
      small : Nodes.byte_size w ns % 2 ^ 32 ≡ Nodes.byte_size w ns
      small = omega arith

  pack_text-described :
      (type sub : ℕ) (s : List ℕ)
      → IsPackable w type (text s) sub
      → pack_text
          (record (pack_header (record { self_id = self_id; ebc_msg = new_msg }) type) {
            dst_id = dst;
            sub_type = sub;
          })
          s
        ≡ described w self_id type (text s) sub dst
  unfolding pack_text pack_header
  pack_text-described type sub s (t, k, v) = simp small
    where
      small : length s % 2 ^ 32 ≡ length s
      small = omega arith

  -- `pack_body` makes the message that the call describes.
  pub pack_body-described :
      (type sub : ℕ) (payload : Payload)
      → IsPackable w type payload sub
      → pack_body w
          (pack_header (record { self_id = self_id; ebc_msg = new_msg }) type)
          type
          payload
          sub
          dst
        ≡ some (described w self_id type payload sub dst)
  unfolding pack_body
  pack_body-described type sub null v = absurd v
  pack_body-described type sub (a_node n) v = ground (arith, v, pack_node-described type sub n v)
  pack_body-described type sub (some_nodes ns) v =
      ground (arith, v, pack_nodes-described type sub ns v)
  pack_body-described type sub (text s) v = ground (arith, v, pack_text-described type sub s v)

  pub described-IsMsg :
      (type sub : ℕ) (payload : Payload)
      → length self_id < 2 ^ 31
      → length dst < 2 ^ 31
      → IsPackable w type payload sub
      → IsMsg w (described w self_id type payload sub dst)
  described-IsMsg type sub null hs hd v = absurd v
  described-IsMsg type sub (a_node n) hs hd v = ground (arith, v)
  described-IsMsg type sub (some_nodes ns) hs hd v = ground (arith, v)
  described-IsMsg type sub (text s) hs hd v = ground (arith, v)

  pub described-IsAccepted :
      (type sub : ℕ) (payload : Payload)
      → IsPackable w type payload sub
      → IsAccepted w (described w self_id type payload sub dst)
  described-IsAccepted type sub null v = absurd v
  described-IsAccepted type sub (a_node n) v = ground (arith, v)
  described-IsAccepted type sub (some_nodes ns) v = ground (arith, v)
  described-IsAccepted type sub (text s) v = ground (arith, v)
