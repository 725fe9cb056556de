-- ===== src/Proto/Msg.antt =====
-- `config::EbcMsg` (src/msg.pb.cc and include/msg.pb.h). `body` is the union `body_` together with
-- its discriminant `_oneof_case_[0]`.
pub mod Laws
pub mod RoundTrip
pub mod Bounds
use ebc_node.Base.{
  ℕ, zero, suc, ◌+◌, ◌-◌, ◌*◌, ◌/◌, ◌%◌, ◌^◌, ◌≤◌, ◌<◌, ◌≡◌, refl, sym, ap, ◌∙◌, ◌≢◌, ◌↔◌, ◌⊎◌, inl,
  inr, Bool, true, false, not, ◌&&◌, ◌||◌, Option, none, some, List, [], ◌∷◌, ◌++◌, map, arith,
  dec_lt, ℕ_discrete, ltb, leb, ◌==◌, if◌then◌else◌, ltb→lt, ==_iff, Bool-cases, Option-cases,
  length, get_elem?, take, drop, replicate, All, length-append, length-take, length-drop,
  take-append, drop-append, take_all,
}
use ebc_node.Wire.{Wire, Result, ok, failed, stuck, ◌>>=◌, TagRead, ended, tag, with_value}
use ebc_node.Wire.Laws.{WireLaws, IsField, ReadsBack}
use ebc_node.Proto.Fields.{
  bytes_field, uint32_field, enum_field, raw_unknown, bytes_field_size, uint32_field_size,
  enum_field_size, merge_bytes, merge_number, merge_bytes-nil, merge_number-zero, raw_unknown-nil,
  length-bytes_field, length-uint32_field, length-enum_field,
}
use ebc_node.Proto.Loop.{at_field, merge_partial, read_message, read_text}
use ebc_node.Proto.Nodes
use ebc_node.Proto.Nodes.{EbcNodes, new_nodes, merge_partial_nodes}

-- `BODY_NOT_SET`, `kMsg`, `kNodes`.
pub data Body : Type 0 where
  body_not_set : Body
  msg_body : List ℕ → Body
  nodes_body : EbcNodes → Body

pub record EbcMsg : Type 0 where
  pub version : List ℕ
  pub src_id : List ℕ
  pub dst_id : List ℕ
  pub head : ℕ
  pub ttl : ℕ
  pub id : ℕ
  pub type : ℕ
  pub sub_type : ℕ
  pub length_ : ℕ
  pub body : Body
  pub unknown : List ℕ

-- `EbcMsg()`.
abbrev pub new_msg : EbcMsg
new_msg = record {
  version = [];
  src_id = [];
  dst_id = [];
  head = 0;
  ttl = 0;
  id = 0;
  type = 0;
  sub_type = 0;
  length_ = 0;
  body = body_not_set;
  unknown = [];
}

-- `has_nodes`, `nodes` (the default instance where there is none) and `msg`.
abbrev body_has_nodes : Body → Bool
body_has_nodes (nodes_body ns) = true
body_has_nodes _ = false

abbrev body_nodes : Body → EbcNodes
body_nodes (nodes_body ns) = ns
body_nodes _ = new_nodes

abbrev body_msg : Body → List ℕ
body_msg (msg_body s) = s
body_msg _ = []

abbrev pub has_nodes : EbcMsg → Bool
has_nodes m = body_has_nodes m.body

abbrev pub nodes : EbcMsg → EbcNodes
nodes m = body_nodes m.body

abbrev pub msg : EbcMsg → List ℕ
msg m = body_msg m.body

-- The setters. `set_nodes` is an assignment through the pointer that `mutable_nodes` returns: it
-- makes the body a list of nodes, whatever it was.
abbrev pub set_msg : EbcMsg → List ℕ → EbcMsg
set_msg m value = record m { body = msg_body value }

abbrev pub set_nodes : EbcMsg → EbcNodes → EbcMsg
set_nodes m value = record m { body = nodes_body value }

-- `clear_body`.
abbrev clear_body : EbcMsg → EbcMsg
clear_body m = record m { body = body_not_set }

-- `Clear`.
unfoldable pub clear : EbcMsg → EbcMsg
clear m = clear_body (record m {
  version = [];
  src_id = [];
  dst_id = [];
  head = 0;
  ttl = 0;
  id = 0;
  type = 0;
  sub_type = 0;
  length_ = 0;
  unknown = [];
})

-- The last part of `MergeFrom`: a text replaces the body, nodes are added to those that are there.
abbrev pub merge_body : Body → Body → Body
merge_body old body_not_set = old
merge_body old (msg_body s) = msg_body s
merge_body old (nodes_body ns) = nodes_body (Nodes.merge_from (body_nodes old) ns)

-- `MergeFrom`.
unfoldable pub merge_from : EbcMsg → EbcMsg → EbcMsg
merge_from m from = record {
  version = merge_bytes m.version from.version;
  src_id = merge_bytes m.src_id from.src_id;
  dst_id = merge_bytes m.dst_id from.dst_id;
  head = merge_number m.head from.head;
  ttl = merge_number m.ttl from.ttl;
  id = merge_number m.id from.id;
  type = merge_number m.type from.type;
  sub_type = merge_number m.sub_type from.sub_type;
  length_ = merge_number m.length_ from.length_;
  body = merge_body m.body from.body;
  unknown = m.unknown ++ from.unknown;
}

-- `CopyFrom`, from another object.
unfoldable pub copy_from : EbcMsg → EbcMsg → EbcMsg
unfolding clear merge_from
copy_from m from = merge_from (clear m) from

-- The copy constructor: strings one by one, the numbers as one block, then the body.
unfoldable pub copy_msg : EbcMsg → EbcMsg
copy_msg from = record {
  version = merge_bytes [] from.version;
  src_id = merge_bytes [] from.src_id;
  dst_id = merge_bytes [] from.dst_id;
  head = from.head;
  ttl = from.ttl;
  id = from.id;
  type = from.type;
  sub_type = from.sub_type;
  length_ = from.length_;
  body = merge_body body_not_set from.body;
  unknown = [] ++ from.unknown;
}

-- `InternalSwap`.
unfoldable pub internal_swap : EbcMsg × EbcMsg → EbcMsg × EbcMsg
internal_swap (a, b) = (swapped a b, swapped b a)
  where
    swapped : EbcMsg → EbcMsg → EbcMsg
    swapped x y = record {
      version = y.version;
      src_id = y.src_id;
      dst_id = y.dst_id;
      head = y.head;
      ttl = y.ttl;
      id = y.id;
      type = y.type;
      sub_type = y.sub_type;
      length_ = y.length_;
      body = y.body;
      unknown = y.unknown;
    }

-- `ByteSizeLong`, in its order.
unfoldable pub body_size : Wire → Body → ℕ
body_size w body_not_set = 0
body_size w (msg_body s) = 1 + w.delimited_size (length s)
body_size w (nodes_body ns) = 1 + w.delimited_size (Nodes.byte_size w ns)

unfoldable pub byte_size : Wire → EbcMsg → ℕ
unfolding body_size
byte_size w m =
    length (raw_unknown w m.unknown)
    + bytes_field_size w m.version
    + bytes_field_size w m.src_id
    + bytes_field_size w m.dst_id
    + uint32_field_size w m.head
    + uint32_field_size w m.ttl
    + uint32_field_size w m.id
    + enum_field_size w m.type
    + enum_field_size w m.sub_type
    + uint32_field_size w m.length_
    + body_size w m.body

-- `SerializeWithCachedSizes`, in the order of the field numbers.
unfoldable pub body_field : Wire → Body → List ℕ
body_field w body_not_set = []
body_field w (msg_body s) = w.write_delimited 10 s
body_field w (nodes_body ns) = w.write_message 11 (Nodes.byte_size w ns) (Nodes.serialize w ns)

unfoldable pub serialize : Wire → EbcMsg → List ℕ
unfolding body_field
serialize w m =
    uint32_field w 1 m.head
    ++ (bytes_field w 2 m.version
        ++ (bytes_field w 3 m.src_id
            ++ (bytes_field w 4 m.dst_id
                ++ (uint32_field w 5 m.ttl
                    ++ (uint32_field w 6 m.id
                        ++ (enum_field w 7 m.type
                            ++ (enum_field w 8 m.sub_type
                                ++ (uint32_field w 9 m.length_
                                    ++ (body_field w m.body ++ raw_unknown w m.unknown)))))))))

-- One round of `MergePartialFromCodedStream`. `mutable_nodes()` keeps nodes that are there already.
unfoldable pub step : Wire → ℕ → Bool → List ℕ → EbcMsg → Result (EbcMsg × List ℕ)
unfolding at_field
step w t within rest m =
    if at_field within t 1 8
    then with_value (w.read_uint32 rest) (λ v. record m { head = v })
    else if at_field within t 2 18
    then read_text w (w.read_delimited rest) (λ s. record m { version = s })
    else if at_field within t 3 26
    then with_value (w.read_delimited rest) (λ s. record m { src_id = s })
    else if at_field within t 4 34
    then with_value (w.read_delimited rest) (λ s. record m { dst_id = s })
    else if at_field within t 5 40
    then with_value (w.read_uint32 rest) (λ v. record m { ttl = v })
    else if at_field within t 6 48
    then with_value (w.read_uint32 rest) (λ v. record m { id = v })
    else if at_field within t 7 56
    then with_value (w.read_enum rest) (λ v. record m { type = v })
    else if at_field within t 8 64
    then with_value (w.read_enum rest) (λ v. record m { sub_type = v })
    else if at_field within t 9 72
    then with_value (w.read_uint32 rest) (λ v. record m { length_ = v })
    else if at_field within t 10 82
    then with_value (w.read_delimited rest) (set_msg m)
    else if at_field within t 11 90
    then read_message (λ s. merge_partial_nodes w s (nodes m)) (w.read_delimited rest) (set_nodes m)
    else with_value (w.skip_field t rest) (λ u. record m { unknown = m.unknown ++ u })

-- `MergePartialFromCodedStream`.
unfoldable pub merge_partial_msg : Wire → List ℕ → EbcMsg → Result (EbcMsg × Bool)
merge_partial_msg w = merge_partial w (step w)
