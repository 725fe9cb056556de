-- ===== src/MsgPack.antt =====
-- src/msgpack.cpp and include/msgpack.h: `NET::msgPack`, which builds, sends and checks an `EbcMsg`.
pub mod Unpack
pub mod Described
pub mod RoundTrip
pub mod Print
pub mod Printing
pub mod Writes
pub mod Bounds
use ebc_node.Base.{
  ℕ, zero, suc, ◌+◌, ◌-◌, ◌*◌, ◌/◌, ◌%◌, ◌^◌, ◌≤◌, ◌<◌, ◌≡◌, refl, sym, ap, ◌∙◌, ◌≢◌, ◌↔◌, ◌⊎◌, inl,
  inr, Bool, true, false, not, ◌&&◌, ◌||◌, Option, none, some, List, [], ◌∷◌, ◌++◌, map, arith,
  dec_lt, ℕ_discrete, ltb, leb, ◌==◌, if◌then◌else◌, ltb→lt, ==_iff, Bool-cases, Option-cases,
  length, get_elem?, take, drop, replicate, All, length-append, length-take, length-drop,
  take-append, drop-append, take_all,
}
use ebc_node.Wire.{Wire, Result, ok, failed, stuck, ◌>>=◌, TagRead, ended, tag, with_value}
use ebc_node.Wire.Laws.{WireLaws, IsField, ReadsBack}
use ebc_node.Utils.{net_version}
use ebc_node.Proto.Enums.{type_empty, type_get_node, type_rep, type_punch, sub_node, sub_data}
use ebc_node.Proto.Node
use ebc_node.Proto.Node.{EbcNode, new_node}
use ebc_node.Proto.Nodes
use ebc_node.Proto.Nodes.{EbcNodes, add_ebcnodes}
use ebc_node.Proto.Msg
use ebc_node.Proto.Msg.{
  EbcMsg, new_msg, clear, serialize, merge_partial_msg, nodes, has_nodes, msg, set_nodes, set_msg,
}

-- `msgHead`.
abbrev pub msg_head : ℕ
msg_head = 0xf5fa

-- The members of `msgPack`; an id is the list of its bytes.
pub record MsgPack : Type 0 where
  pub self_id : List ℕ
  pub ebc_msg : EbcMsg

-- `msgPack(_id)`.
unfoldable pub new_pack : List ℕ → MsgPack
unfolding clear
new_pack id = record { self_id = id; ebc_msg = clear new_msg }

-- What the `void *msg` of `pack` points to. A text is a C string without its closing NUL.
pub data Payload : Type 0 where
  null : Payload
  a_node : EbcNode → Payload
  some_nodes : EbcNodes → Payload
  text : List ℕ → Payload

-- The casts of `pack`. To read through a null pointer, or an object as one of another type, is
-- undefined: `none`.
abbrev as_node : Payload → Option EbcNode
as_node (a_node n) = some n
as_node _ = none

abbrev as_nodes : Payload → Option EbcNodes
as_nodes (some_nodes ns) = some ns
as_nodes _ = none

abbrev as_text : Payload → Option (List ℕ)
as_text (text s) = some s
as_text _ = none

infixl 5 ◌>>=?◌
abbrev pub ◌>>=?◌ {ℓ κ} : {A : Type ℓ} {B : Type κ} → Option A → (A → Option B) → Option B
none >>=? f = none
some a >>=? f = f a

-- The body of the cases `GET_NODE` and `PUNCH`: the node is added to those of the message.
unfoldable pub pack_node : Wire → EbcMsg → EbcNode → EbcMsg
unfolding add_ebcnodes
pack_node w m node =
    let ns = add_ebcnodes (nodes m) (Node.copy_from new_node node) in
    record (set_nodes m ns) { length_ = Nodes.byte_size w ns % 2 ^ 32 }

-- The two bodies of the case `REP`.
unfoldable pub pack_nodes : Wire → EbcMsg → EbcNodes → EbcMsg
pack_nodes w m ns = record (set_nodes m (Nodes.copy_from (nodes m) ns)) {
  length_ = Nodes.byte_size w ns % 2 ^ 32;
}

unfoldable pub pack_text : EbcMsg → List ℕ → EbcMsg
pack_text m s = record (set_msg m s) { length_ = length s % 2 ^ 32 }

-- The switch of `pack`.
unfoldable pub pack_body : Wire → EbcMsg → ℕ → Payload → ℕ → List ℕ → Option EbcMsg
pack_body w m type payload sub dst =
    if type == type_get_node
    then as_node payload >>=? (λ n. some (pack_node w m n))
    else if type == type_rep
    then (let m' : EbcMsg = record m { dst_id = dst; sub_type = sub } in
        if sub == sub_node
        then as_nodes payload >>=? (λ ns. some (pack_nodes w m' ns))
        else if sub == sub_data
        then as_text payload >>=? (λ s. some (pack_text m' s))
        else some m')
    else if type == type_punch
    then as_node payload >>=? (λ n. some (pack_node w m n))
    else some m

-- The four setters that `pack` begins with.
unfoldable pub pack_header : MsgPack → ℕ → EbcMsg
pack_header p type = record (p.ebc_msg) {
  head = msg_head;
  version = net_version;
  src_id = p.self_id;
  type = type;
}

-- What `pack` leaves: the object, the buffer, and the value that it returns. The value that
-- `SerializeToArray` returns is not looked at. `ret` is the size of the message, which the `int` that is
-- returned holds where it is below 2 GB: only for such messages do the definitions stand for the code,
-- and the tests of the callers for a negative value are left out.
pub record Packed : Type 0 where
  pub object : MsgPack
  pub buffer : Option (List ℕ)
  pub ret : ℕ

abbrev write_buffer : Wire → EbcMsg → Option (List ℕ) → ℕ → Option (List ℕ)
write_buffer w m none size = none
write_buffer w m (some buffer) size = some (w.write_array (serialize w m) size buffer)

-- `pack(type, msg, buf, size, subType, dstId)`, where `buf` may be null.
unfoldable pub pack :
    Wire → MsgPack → ℕ → Payload → Option (List ℕ) → ℕ → ℕ → List ℕ → Option Packed
unfolding pack_header
pack w p type payload buffer size sub dst =
    pack_body w (pack_header p type) type payload sub dst >>=? (λ m. some (record {
      object = record p { ebc_msg = m };
      buffer = write_buffer w m buffer size;
      ret = Msg.byte_size w m;
    }))

-- `ParseFromArray`: clear, parse, and check that the message ended where the bytes did.
unfoldable pub parse_from_array : Wire → EbcMsg → List ℕ → Result EbcMsg
parse_from_array w m bytes = do
  (m', at_end) ← merge_partial_msg w bytes (clear m)
  if at_end then ok m' else failed

-- The checks of `unpack`, in their order; the version is not among them.
unfoldable pub length_agrees : Wire → EbcMsg → Bool
length_agrees w m =
    if has_nodes m then m.length_ == Nodes.byte_size w (nodes m) else m.length_ == length (msg m)

unfoldable pub check : Wire → EbcMsg → Result EbcMsg
check w m =
    if not (m.head == msg_head)
    then failed
    else if m.type == type_empty
    then failed
    else if not (length_agrees w m)
    then failed
    else ok m

-- `unpack(buf, len)`: `failed` is the return value -1. The call of `msgPrint` on a message that is
-- accepted, which leaves it as it is, is left out; MsgPack/Print has it.
unfoldable pub unpack : Wire → MsgPack → List ℕ → ℕ → Result MsgPack
unpack w p buffer len = do
  m ← parse_from_array w p.ebc_msg (take len buffer)
  m' ← check w m
  ok (record p { ebc_msg = m' })
