-- ===== src/Proto/Node.antt =====
-- `config::EbcNode` (src/msg.pb.cc and include/msg.pb.h). A string is the list of its bytes; the
-- bytes of `unknown` are `_internal_metadata_.unknown_fields()`.
pub mod Laws
use ebc_node.Base.{
  ℕ, zero, suc, ◌+◌, ◌-◌, ◌*◌, ◌/◌, ◌%◌, ◌^◌, ◌≤◌, ◌<◌, ◌≡◌, refl, sym, ap, ◌∙◌, ◌≢◌, ◌↔◌, ◌⊎◌, inl,
  inr, Bool, true, false, not, ◌&&◌, ◌||◌, Option, none, some, List, [], ◌∷◌, ◌++◌, map, arith,
  dec_lt, ℕ_discrete, ltb, leb, ◌==◌, if◌then◌else◌, ltb→lt, ==_iff, Bool-cases, Option-cases,
  length, get_elem?, take, drop, replicate, All, length-append, length-take, length-drop,
  take-append, drop-append, take_all,
}
use ebc_node.Wire.{Wire, Result, ok, failed, stuck, ◌>>=◌, TagRead, ended, tag, with_value}
use ebc_node.Wire.Laws.{WireLaws, IsField, ReadsBack}
use ebc_node.Proto.Fields.{
  bytes_field, uint32_field, enum_field, raw_unknown, bytes_field_size, uint32_field_size,
  enum_field_size, merge_bytes, merge_number, merge_bytes-nil, merge_number-zero,
  length-bytes_field, length-uint32_field, length-enum_field,
}
use ebc_node.Proto.Loop.{at_field, merge_partial}

pub record EbcNode : Type 0 where
  pub id : List ℕ
  pub ip : ℕ
  pub port_nat : ℕ
  pub unknown : List ℕ

-- `EbcNode()`.
abbrev pub new_node : EbcNode
new_node = record { id = []; ip = 0; port_nat = 0; unknown = [] }

-- The setters.
unfoldable pub set_id : EbcNode → List ℕ → EbcNode
set_id m value = record m { id = value }

unfoldable pub set_ip : EbcNode → ℕ → EbcNode
set_ip m value = record m { ip = value }

unfoldable pub set_port_nat : EbcNode → ℕ → EbcNode
set_port_nat m value = record m { port_nat = value }

-- `Clear`.
unfoldable pub clear : EbcNode → EbcNode
clear m = record m { id = []; ip = 0; port_nat = 0; unknown = [] }

-- `MergeFrom`.
unfoldable pub merge_from : EbcNode → EbcNode → EbcNode
unfolding merge_bytes merge_number
merge_from m from = record {
  id = merge_bytes m.id from.id;
  ip = merge_number m.ip from.ip;
  port_nat = merge_number m.port_nat from.port_nat;
  unknown = m.unknown ++ from.unknown;
}

-- `CopyFrom`, from another object.
unfoldable pub copy_from : EbcNode → EbcNode → EbcNode
unfolding clear merge_from
copy_from m from = merge_from (clear m) from

-- The copy constructor: the two numbers are copied as one block of memory.
unfoldable pub copy_node : EbcNode → EbcNode
unfolding merge_bytes
copy_node from = record {
  id = merge_bytes [] from.id;
  ip = from.ip;
  port_nat = from.port_nat;
  unknown = [] ++ from.unknown;
}

-- `InternalSwap`.
unfoldable pub internal_swap : EbcNode × EbcNode → EbcNode × EbcNode
internal_swap (a, b) = (
  record { id = b.id; ip = b.ip; port_nat = b.port_nat; unknown = b.unknown },
  record { id = a.id; ip = a.ip; port_nat = a.port_nat; unknown = a.unknown },
)

-- `ByteSizeLong`.
unfoldable pub byte_size : Wire → EbcNode → ℕ
byte_size w m =
    length (raw_unknown w m.unknown)
    + bytes_field_size w m.id
    + uint32_field_size w m.ip
    + uint32_field_size w m.port_nat

-- `SerializeWithCachedSizes`.
unfoldable pub serialize : Wire → EbcNode → List ℕ
serialize w m =
    bytes_field w 1 m.id
    ++ (uint32_field w 2 m.ip ++ (uint32_field w 3 m.port_nat ++ raw_unknown w m.unknown))

-- One round of `MergePartialFromCodedStream`: the switch on the field number, where a tag that is
-- not the expected byte goes to `handle_unusual`.
unfoldable pub step : Wire → ℕ → Bool → List ℕ → EbcNode → Result (EbcNode × List ℕ)
unfolding at_field set_id set_ip set_port_nat
step w t within rest m =
    if at_field within t 1 10
    then with_value (w.read_delimited rest) (set_id m)
    else if at_field within t 2 16
    then with_value (w.read_uint32 rest) (set_ip m)
    else if at_field within t 3 24
    then with_value (w.read_uint32 rest) (set_port_nat m)
    else with_value (w.skip_field t rest) (λ u. record m { unknown = m.unknown ++ u })

-- `MergePartialFromCodedStream`.
unfoldable pub merge_partial_node : Wire → List ℕ → EbcNode → Result (EbcNode × Bool)
merge_partial_node w = merge_partial w (step w)
