-- ===== src/Engine/Client/Request.antt =====
-- src/netengine.cpp: the request that a node sends once it is connected to the server.
use ebc_node.Base.{ℕ, ◌≡◌, refl, inl, some, ◌∷◌, arith, length, drop, take-append}
use ebc_node.Wire.{Wire}
use ebc_node.Wire.Laws.{WireLaws}
use ebc_node.Node.{zero_id}
use ebc_node.Utils.Ports.{com_port_nat-lt}
use ebc_node.Proto.Enums.{type_get_node, sub_empty}
use ebc_node.Proto.Nodes.Bounds.{IsSmall}
use ebc_node.Proto.Msg.{serialize, clear}
use ebc_node.MsgPack.{a_node, new_pack}
use ebc_node.MsgPack.Described.{described-IsMsg, pack_body-described}
use ebc_node.MsgPack.Bounds.{node-IsPackable, described_node-le}
use ebc_node.MsgPack.Writes.{pack-writes}
use ebc_node.Engine.World.{World, send}
use ebc_node.Engine.World.Sends.{front-fits}
use ebc_node.Engine.Message.{zeros}
use ebc_node.Engine.Message.Introduction.{length-zeros}
use ebc_node.Engine.Message.Announce.{request_msg}
use ebc_node.Engine.Client.{self_node, send_get_node}

pub self_node-IsSmall : (s : World) → IsSmall (self_node s.engine.self)
self_node-IsSmall s = (
  (
    record {
      id_fits = omega arith;
      ip_fits = omega arith;
      port_nat_fits = com_port_nat-lt 0 s.engine.self.nat (omega arith);
    },
    refl,
  ),
  omega arith,
)

-- A node with an id of 20 bytes that asks the server for nodes: it is defined, sends exactly the bytes
-- of its request, once, and changes no table.
pub send_get_node-sends :
    {w : Wire} (laws : WireLaws w) (sock : ℕ) (s : World)
    → length s.engine.self.id ≡ 20
    → send_get_node w sock s
      ≡ some (
        tt,
        record s {
          calls =
              send sock (serialize w (request_msg w s.engine.self.id (self_node s.engine.self)))
              ∷ s.calls;
        },
      )
unfolding send_get_node new_pack clear
send_get_node-sends {w} laws sock s id_size =
    let m = request_msg w s.engine.self.id (self_node s.engine.self) in
    let bytes = serialize w m in
    let rest = drop (length bytes) (zeros 1024) in
    let small = self_node-IsSmall s in
    let v =
      node-IsPackable laws type_get_node sub_empty (self_node s.engine.self) (inl refl) small in
    let packs =
      pack-writes laws (new_pack s.engine.self.id) type_get_node (a_node (self_node s.engine.self))
        (zeros 1024) 1024 sub_empty zero_id m
        (pack_body-described w s.engine.self.id zero_id type_get_node sub_empty
          (a_node (self_node s.engine.self)) v)
        (described-IsMsg w s.engine.self.id zero_id type_get_node sub_empty
          (a_node (self_node s.engine.self)) (omega arith) (omega arith) v)
        (omega (
          arith,
          described_node-le laws s.engine.self.id zero_id (omega arith) (omega arith) type_get_node
              sub_empty (self_node s.engine.self) (inl refl) small,
        ))
        (omega (arith, length-zeros 1024)) in
    rw (packs, front-fits bytes rest, take-append bytes rest)
