-- ===== src/Engine/Message/Introduction.antt =====
-- src/netengine.cpp: a client announces itself to a server: the case GET_NODE from what is received to
-- what is sent.
use ebc_node.Base.{length-replicate}
use ebc_node.Base.{
  ℕ, ◌≤◌, ◌≡◌, refl, ap, ◌∙◌, some, List, [], ◌∷◌, ◌++◌, arith, length, drop, length-append,
  take-append,
}
use mathlib.Core.List.{append-nil}
use ebc_node.Wire.{Wire}
use ebc_node.Wire.Laws.{WireLaws}
use ebc_node.SockAddr.{SockAddr, endpoint}
use ebc_node.Utils.{par_nat}
use ebc_node.Node.{
  Node, NodeId, zero_id, new_node, set_addr, set_nat, set_sock, set_state, connected,
  string_to_node_id,
}
use ebc_node.Node.Id.{string_to_node_id_lem}
use ebc_node.Proto.Enums.{type_rep, type_punch, sub_node, sub_empty}
use ebc_node.Proto.Node.{EbcNode}
use ebc_node.Proto.Nodes.{new_nodes, ebcnodes_at}
use ebc_node.Proto.Msg
use ebc_node.Proto.Msg.{EbcMsg, serialize, nodes, nodes_body, clear, new_msg}
use ebc_node.Proto.Msg.Laws.{IsBody}
use ebc_node.MsgPack.{MsgPack, a_node, some_nodes, new_pack}
use ebc_node.MsgPack.Described.{described, described-IsMsg, IsPackable, pack_body-described}
use ebc_node.MsgPack.Bounds.{listing}
use ebc_node.MsgPack.Writes.{IsReady, pack-writes, pack_body-nodes}
use ebc_node.Engine.{Engine, SockIn, put_client, connected_node, add_client_node}
use ebc_node.Engine.World.{◌>>=◌, Udt, World, Call, getpeername}
use ebc_node.Engine.Message.{buffer_size, zeros, introduce, node_reply, punch_notice, punch_node}
use ebc_node.Engine.Message.Requests.{Told, sends, notify_all-Told}

-- The node that the server enters.
abbrev pub new_client : NodeId → SockAddr → ℕ → ℕ → Node
new_client id addr nat sock = record (new_node id) {
  addr = addr;
  nat = nat;
  sock = some sock;
  state = connected;
}

-- The two messages.
abbrev pub notice_msg : Wire → NodeId → EbcNode → EbcMsg
notice_msg w self_id n = described w self_id type_punch (a_node n) sub_empty zero_id

abbrev pub reply_msg : Wire → NodeId → List EbcNode → EbcMsg
reply_msg w self_id ns = described w self_id type_rep (some_nodes (listing ns)) sub_node zero_id

pub length-zeros : (n : ℕ) → length (zeros n) ≡ n
length-zeros n = length-replicate n 0

module _ {w : Wire} (laws : WireLaws w) (self_id : NodeId) (id_size : length self_id ≡ 20) where
  notice-packed :
      (n : EbcNode)
      → IsPackable w type_punch (a_node n) sub_empty
      → Msg.byte_size w (notice_msg w self_id n) ≤ buffer_size
      → let m = notice_msg w self_id n in
        punch_notice w self_id n
        ≡ some (record {
          object = record { self_id = self_id; ebc_msg = m };
          buffer = some (serialize w m ++ drop (length (serialize w m)) (zeros buffer_size));
          ret = length (serialize w m);
        })
  unfolding new_pack clear
  notice-packed n v fits =
      pack-writes laws (new_pack self_id) type_punch (a_node n) (zeros buffer_size) buffer_size
        sub_empty zero_id (notice_msg w self_id n)
        (pack_body-described w self_id zero_id type_punch sub_empty (a_node n) v)
        (described-IsMsg w self_id zero_id type_punch sub_empty (a_node n) (omega arith)
          (omega arith) v)
        fits (omega (arith, length-zeros buffer_size))

  pub reply-packed :
      (p : MsgPack) (ns : List EbcNode)
      → IsReady self_id p
      → IsBody w (nodes_body (listing ns))
      → Msg.byte_size w (reply_msg w self_id ns) ≤ buffer_size
      → let m = reply_msg w self_id ns in
        node_reply w p (listing ns)
        ≡ some (record {
          object = record p { ebc_msg = m };
          buffer = some (serialize w m ++ drop (length (serialize w m)) (zeros buffer_size));
          ret = length (serialize w m);
        })
  reply-packed p ns ready v fits =
      pack-writes laws p type_rep (some_nodes (listing ns)) (zeros buffer_size) buffer_size sub_node
        zero_id (reply_msg w self_id ns)
        (pack_body-nodes w self_id p zero_id ready (listing ns) (v.2))
        (described-IsMsg w self_id zero_id type_rep sub_node (some_nodes (listing ns)) (omega arith)
          (omega arith) (refl, refl, v))
        fits (omega (arith, length-zeros buffer_size))

client-put :
    (memory : List ℕ) (id : NodeId) (info : SockIn) (nat sock : ℕ) (addr : SockAddr) (e : Engine)
    → length id ≡ 20
    → endpoint memory info.sin_port info.sin_addr ≡ some addr
    → add_client_node memory id info nat sock e
      ≡ some (put_client id (new_client id addr nat sock) sock e)
unfolding add_client_node connected_node set_addr set_nat set_sock set_state new_node
client-put memory id info nat sock addr e h made = rw (whole, made)
  where
    whole : string_to_node_id id ≡ some id
    whole = simp append-nil at (string_to_node_id_lem id [] h)

-- What the server sees of a client, what it tells the others of it, and the calls that it makes.
abbrev pub seen : Udt → ℕ → World → SockIn
seen udt sock s = udt.a_name (getpeername sock ∷ s.calls)

abbrev pub entry : Udt → ℕ → World → EbcNode → NodeId → EbcNode
entry udt sock s first src = punch_node (seen udt sock s) (par_nat first.port_nat) src

abbrev pub told_calls : Wire → Udt → ℕ → World → EbcNode → NodeId → List ℕ → List Call
told_calls w udt sock s first src ss =
    sends (serialize w (notice_msg w s.engine.self.id (entry udt sock s first src))) ss
      (getpeername sock ∷ s.calls)

-- What becomes of the engine.
abbrev pub with_client : ℕ → EbcNode → NodeId → SockAddr → Engine → Engine
with_client sock first src addr e =
    put_client src (new_client src addr (par_nat first.port_nat) sock) sock e

module _ {w : Wire} (laws : WireLaws w) (udt : Udt) (sock : ℕ) (s : World) (first : EbcNode)
    (src : NodeId) (ns : List EbcNode) (ss : List ℕ) (addr : SockAddr)
    (self_size : length s.engine.self.id ≡ 20) (src_size : length src ≡ 20)
    (told : Told s.engine.client_node ns ss) where
  pub introduce-tells :
      (msg : EbcMsg)
      → ebcnodes_at (nodes msg) 0 ≡ some first
      → msg.src_id ≡ src
      → IsPackable w type_punch (a_node (entry udt sock s first src)) sub_empty
      → Msg.byte_size w (notice_msg w s.engine.self.id (entry udt sock s first src)) ≤ buffer_size
      → endpoint
          (udt.memory (told_calls w udt sock s first src ss))
          (seen udt sock s).sin_port
          (seen udt sock s).sin_addr
        ≡ some addr
      → introduce w udt sock msg s
        ≡ some (
          listing ns,
          record {
            engine = with_client sock first src addr s.engine;
            calls = told_calls w udt sock s first src ss;
          },
        )
  unfolding introduce
  introduce-tells msg at_0 from v fits made =
      let bytes = serialize w (notice_msg w s.engine.self.id (entry udt sock s first src)) in
      let rest = drop (length bytes) (zeros buffer_size) in
      let room : length bytes ≤ length (bytes ++ rest) = omega (arith, length-append bytes rest) in
      let tells =
        notify_all-Told s.engine.client_node ns ss (bytes ++ rest) (length bytes) new_nodes
          (record s { calls = getpeername sock ∷ s.calls }) told room in
      let quiet =
        tells
        ∙ ap
            (λ b. some (
              listing ns,
              record { engine = s.engine; calls = sends b ss (getpeername sock ∷ s.calls) },
            ))
            (take-append bytes rest) in
      rw (
        at_0,
        from,
        notice-packed laws s.engine.self.id self_size (entry udt sock s first src) v fits,
        ◌>>=◌,
        quiet,
        from,
        client-put (udt.memory (told_calls w udt sock s first src ss)) src (seen udt sock s)
            (par_nat first.port_nat) sock addr s.engine src_size made,
      )
