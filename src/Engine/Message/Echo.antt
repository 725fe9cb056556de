-- ===== src/Engine/Message/Echo.antt =====
-- src/netengine.cpp: how a node that is no server answers a request: with the request itself, over which
-- the reply is packed.
use ebc_node.Base.{
  ℕ, ◌^◌, ◌≤◌, ◌<◌, ◌≡◌, refl, ◌∙◌, ◌⊎◌, inl, inr, Bool-cases, false, none, some, List, ◌∷◌, ◌++◌,
  arith, leb, length, drop,
}
use ebc_node.Wire.{Wire, ok}
use ebc_node.Wire.Laws.{WireLaws}
use ebc_node.Node.{NodeId, zero_id}
use ebc_node.Utils.{net_version}
use ebc_node.Proto.Enums.{type_get_node, type_rep, sub_node}
use ebc_node.Proto.Fields.{raw_unknown-nil}
use ebc_node.Proto.Nodes
use ebc_node.Proto.Nodes.{new_nodes}
use ebc_node.Proto.Msg
use ebc_node.Proto.Msg.{EbcMsg, serialize, nodes_body}
use ebc_node.Proto.Msg.Laws.{IsMsg}
use ebc_node.MsgPack.{
  MsgPack, msg_head, some_nodes, new_pack, unpack, pack_body, pack_header, pack_nodes,
}
use ebc_node.MsgPack.Writes.{pack-writes, pack-leaves}
use ebc_node.Engine.World.{◌>>=◌, Udt, World, recv, send}
use ebc_node.Engine.Message.{
  buffer_size, zeros, received_into, node_reply, on_get_node, dispatch, handle_msg,
}
use ebc_node.Base.{take-append}
use mathlib.Core.Path.{subst}
use ebc_node.Engine.World.Sends.{front-fits}
use ebc_node.MsgPack.Unpack.{unpack-self_id}
use ebc_node.Engine.Message.Introduction.{length-zeros}
use ebc_node.Engine.Message.Reads.{after_recv}

-- The reply: of the request it keeps `ttl`, `id` and the unknown fields.
abbrev pub echo : NodeId → EbcMsg → EbcMsg
echo self_id m = record m {
  version = net_version;
  src_id = self_id;
  dst_id = zero_id;
  head = msg_head;
  type = type_rep;
  sub_type = sub_node;
  length_ = 0;
  body = nodes_body new_nodes;
}

size-new_nodes : (w : Wire) → Nodes.byte_size w new_nodes ≡ 0
unfolding Nodes.byte_size
size-new_nodes w = simp raw_unknown-nil

echo-packed :
    (w : Wire) (p : MsgPack)
    → pack_body w (pack_header p type_rep) type_rep (some_nodes new_nodes) sub_node zero_id
      ≡ some (echo p.self_id p.ebc_msg)
unfolding pack_body pack_header pack_nodes Nodes.copy_from
echo-packed w p = rw (size-new_nodes w) refl

echo-IsMsg :
    (w : Wire) (self_id : NodeId) (m : EbcMsg)
    → length self_id ≡ 20
    → m.ttl < 2 ^ 32
    → m.id < 2 ^ 32
    → IsMsg w (echo self_id m)
echo-IsMsg w self_id m size ttl id = record {
  version_fits = omega arith;
  src_id_fits = omega (arith, size);
  dst_id_fits = omega arith;
  head_fits = omega arith;
  ttl_fits = ttl;
  id_fits = id;
  type_fits = omega arith;
  sub_type_fits = omega arith;
  length_fits = omega arith;
  body_fits = (tt, refl, omega (arith, size-new_nodes w));
}

module _ {w : Wire} (laws : WireLaws w) (udt : Udt) (sock : ℕ) (p : MsgPack) (s : World)
    (size : length p.self_id ≡ 20) (ttl : p.ebc_msg.ttl < 2 ^ 32) (id : p.ebc_msg.id < 2 ^ 32)
    (alone : s.engine.is_server ≡ false) where
  abbrev reply : EbcMsg
  reply = echo p.self_id p.ebc_msg

  pub on_get_node-echoes :
      Msg.byte_size w reply ≤ buffer_size
      → on_get_node w udt sock p s
        ≡ some (tt, record s { calls = send sock (serialize w reply) ∷ s.calls })
  unfolding on_get_node
  on_get_node-echoes fits =
      simp alone (rw (◌>>=◌, written, front-fits bytes unused, take-append bytes unused))
    where
      bytes : List ℕ
      bytes = serialize w reply

      unused : List ℕ
      unused = drop (length bytes) (zeros buffer_size)

      written :
          node_reply w p new_nodes
          ≡ some (record {
            object = record p { ebc_msg = reply };
            buffer = some (bytes ++ unused);
            ret = length bytes;
          })
      written =
          pack-writes laws p type_rep (some_nodes new_nodes) (zeros buffer_size) buffer_size
            sub_node zero_id reply (echo-packed w p) (echo-IsMsg w p.self_id p.ebc_msg size ttl id)
            fits (omega (arith, length-zeros buffer_size))

  pub on_get_node-leaks : buffer_size < Msg.byte_size w reply → on_get_node w udt sock p s ≡ none
  unfolding on_get_node
  on_get_node-leaks large = simp alone (rw (◌>>=◌, left, beyond) refl)
    where
      left :
          node_reply w p new_nodes
          ≡ some (record {
            object = record p { ebc_msg = reply };
            buffer = some (zeros buffer_size);
            ret = Msg.byte_size w reply;
          })
      left =
          pack-leaves laws p type_rep (some_nodes new_nodes) (zeros buffer_size) buffer_size
            sub_node zero_id reply (echo-packed w p) (echo-IsMsg w p.self_id p.ebc_msg size ttl id)
            large

      beyond : leb (Msg.byte_size w reply) (length (zeros buffer_size)) ≡ false
      beyond = ground (arith, length-zeros buffer_size, large)

-- What becomes of a reply: it is sent, or it does not fit.
abbrev pub Echoed : Wire → Udt → ℕ → World → EbcMsg → Type 0
Echoed w udt sock s m =
    ((Msg.byte_size w m ≤ buffer_size)
      × (handle_msg w udt sock s
          ≡ some (
            tt,
            record s { calls = send sock (serialize w m) ∷ recv sock buffer_size ∷ s.calls },
          )))
    ⊎ ((buffer_size < Msg.byte_size w m) × (handle_msg w udt sock s ≡ none))

-- A node that is no server and has an id of 20 bytes receives bytes that `unpack` accepts as a
-- message of the type GET_NODE, whose `ttl` and `id` are numbers of 32 bits: the reply keeps the
-- `ttl`, the `id` and the unknown fields of the request. If it fits the buffer of 6144 bytes it is
-- sent, and nothing else is done, the printing by `msgPrint` left aside; if it does not, what lies
-- behind the buffer is read to be sent, which is undefined.
pub handle_msg-echoes :
    {w : Wire} (laws : WireLaws w) (udt : Udt) (sock : ℕ) (bytes : List ℕ) (p : MsgPack) (s : World)
    → udt.received (recv sock buffer_size ∷ s.calls) ≡ some bytes
    → unpack w (new_pack s.engine.self.id) (received_into buffer_size bytes) (length bytes) ≡ ok p
    → p.ebc_msg.type ≡ type_get_node
    → s.engine.is_server ≡ false
    → length s.engine.self.id ≡ 20
    → p.ebc_msg.ttl < 2 ^ 32
    → p.ebc_msg.id < 2 ^ 32
    → Echoed w udt sock s (echo s.engine.self.id p.ebc_msg)
unfolding handle_msg dispatch new_pack
handle_msg-echoes {w} laws udt sock bytes p s got accepted asks alone size ttl id =
    subst (λ i. Echoed w udt sock s (echo i p.ebc_msg)) own
      (elim (Bool-cases (leb (Msg.byte_size w (echo p.self_id p.ebc_msg)) buffer_size)) [
        | inl fits ↦
            let small : Msg.byte_size w (echo p.self_id p.ebc_msg) ≤ buffer_size =
              ground (arith, fits) in
            inl (
              small,
              reads
                  ∙ on_get_node-echoes laws udt sock p (after_recv sock s) full ttl id alone small,
            )
        | inr over ↦
            let large : buffer_size < Msg.byte_size w (echo p.self_id p.ebc_msg) =
              ground (arith, over) in
            inr (
              large,
              reads ∙ on_get_node-leaks laws udt sock p (after_recv sock s) full ttl id alone large,
            )
      ])
  where
    own : p.self_id ≡ s.engine.self.id
    own =
        unpack-self_id w (new_pack s.engine.self.id) p (received_into buffer_size bytes)
          (length bytes) accepted

    full : length p.self_id ≡ 20
    full = rw own size

    reads : handle_msg w udt sock s ≡ on_get_node w udt sock p (after_recv sock s)
    reads = rw (got, accepted, asks) refl
