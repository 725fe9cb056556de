-- ===== src/Proto/Nodes.antt =====
-- `config::EbcNodes` (src/msg.pb.cc and include/msg.pb.h): a repeated field of nodes.
pub mod Laws
pub mod Bounds
use ebc_node.Base.{
  ℕ, zero, suc, ◌+◌, ◌-◌, ◌*◌, ◌/◌, ◌%◌, ◌^◌, ◌≤◌, ◌<◌, ◌≡◌, refl, sym, ap, ◌∙◌, ◌≢◌, ◌↔◌, ◌⊎◌, inl,
  inr, Bool, true, false, not, ◌&&◌, ◌||◌, Option, none, some, List, [], ◌∷◌, ◌++◌, map, arith,
  dec_lt, ℕ_discrete, ltb, leb, ◌==◌, if◌then◌else◌, ltb→lt, ==_iff, Bool-cases, Option-cases,
  length, get_elem?, take, drop, replicate, All, length-append, length-take, length-drop,
  take-append, drop-append, take_all,
}
use ebc_node.Wire.{Wire, Result, ok, failed, stuck, ◌>>=◌, TagRead, ended, tag, with_value}
use ebc_node.Wire.Laws.{WireLaws, IsField, ReadsBack}
use ebc_node.Proto.Fields.{
  bytes_field, uint32_field, enum_field, raw_unknown, bytes_field_size, uint32_field_size,
  enum_field_size, merge_bytes, merge_number, merge_bytes-nil, merge_number-zero, raw_unknown-nil,
  length-bytes_field, length-uint32_field, length-enum_field,
}
use ebc_node.Proto.Loop.{at_field, merge_partial, read_message}
use ebc_node.Proto.Node
use ebc_node.Proto.Node.{EbcNode, new_node, merge_partial_node}

pub record EbcNodes : Type 0 where
  pub ebcnodes : List EbcNode
  pub unknown : List ℕ

-- `EbcNodes()`, and the default instance.
abbrev pub new_nodes : EbcNodes
new_nodes = record { ebcnodes = []; unknown = [] }

-- `ebcnodes_size`, and `ebcnodes(index)`, which is undefined out of range.
unfoldable ebcnodes_size : EbcNodes → ℕ
ebcnodes_size m = length m.ebcnodes

unfoldable pub ebcnodes_at : EbcNodes → ℕ → Option EbcNode
ebcnodes_at m index = get_elem? m.ebcnodes index

-- `add_ebcnodes()->CopyFrom(node)`: a new entry at the end.
unfoldable pub add_ebcnodes : EbcNodes → EbcNode → EbcNodes
add_ebcnodes m node = record m { ebcnodes = m.ebcnodes ++ (node ∷ []) }

-- `Clear`.
unfoldable pub clear : EbcNodes → EbcNodes
clear m = record m { ebcnodes = []; unknown = [] }

-- `MergeFrom`.
unfoldable pub merge_from : EbcNodes → EbcNodes → EbcNodes
merge_from m from = record {
  ebcnodes = m.ebcnodes ++ from.ebcnodes;
  unknown = m.unknown ++ from.unknown;
}

-- `CopyFrom`, from another object.
unfoldable pub copy_from : EbcNodes → EbcNodes → EbcNodes
unfolding clear merge_from
copy_from m from = merge_from (clear m) from

-- `InternalSwap`.
unfoldable pub internal_swap : EbcNodes × EbcNodes → EbcNodes × EbcNodes
internal_swap (a, b) = (
  record { ebcnodes = b.ebcnodes; unknown = b.unknown },
  record { ebcnodes = a.ebcnodes; unknown = a.unknown },
)

-- `ByteSizeLong`: one byte of tag for each entry, and the entries with their lengths.
unfoldable pub message_sizes : Wire → List EbcNode → ℕ
message_sizes w [] = 0
message_sizes w (n ∷ ns) = w.delimited_size (Node.byte_size w n) + message_sizes w ns

unfoldable pub byte_size : Wire → EbcNodes → ℕ
unfolding message_sizes
byte_size w m =
    length (raw_unknown w m.unknown) + (1 * length m.ebcnodes + message_sizes w m.ebcnodes)

-- `SerializeWithCachedSizes`. The cached sizes are those that `ByteSizeLong` has just computed.
unfoldable pub messages : Wire → List EbcNode → List ℕ
messages w [] = []
messages w (n ∷ ns) = w.write_message 1 (Node.byte_size w n) (Node.serialize w n) ++ messages w ns

unfoldable pub serialize : Wire → EbcNodes → List ℕ
unfolding messages
serialize w m = messages w m.ebcnodes ++ raw_unknown w m.unknown

-- One round of `MergePartialFromCodedStream`.
unfoldable pub step : Wire → ℕ → Bool → List ℕ → EbcNodes → Result (EbcNodes × List ℕ)
unfolding at_field add_ebcnodes
step w t within rest m =
    if at_field within t 1 10
    then read_message (λ s. merge_partial_node w s new_node) (w.read_delimited rest)
        (add_ebcnodes m)
    else with_value (w.skip_field t rest) (λ u. record m { unknown = m.unknown ++ u })

-- `MergePartialFromCodedStream`.
unfoldable pub merge_partial_nodes : Wire → List ℕ → EbcNodes → Result (EbcNodes × Bool)
merge_partial_nodes w = merge_partial w (step w)
