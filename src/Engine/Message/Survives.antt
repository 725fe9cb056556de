-- ===== src/Engine/Message/Survives.antt =====
-- src/netengine.cpp: which messages a node that is no server can handle.
use ebc_node.Base.{
  ℕ, ◌^◌, ◌≤◌, ◌<◌, ◌≡◌, ◌≢◌, refl, sym, ap, ◌∙◌, inl, inr, Option-cases, Option, false, none, some,
  List, [], ◌∷◌, ◌++◌, arith, ◌==◌, length, take, All, length-append,
}
use ebc_node.Wire.{Wire, ok, Result-cases}
use ebc_node.Wire.Laws.{WireLaws}
use ebc_node.Utils.{par_nat, par_port}
use ebc_node.Node.{NodeId, string_to_node_id, set_addr, set_nat, set_sock, new_node}
use ebc_node.Proto.Enums.{type_get_node, type_rep, type_punch, sub_node}
use ebc_node.Proto.Node.{EbcNode}
use ebc_node.Proto.Nodes.{ebcnodes_at}
use ebc_node.Proto.Msg
use ebc_node.Proto.Msg.{EbcMsg, nodes, serialize}
use ebc_node.MsgPack.{MsgPack, new_pack, unpack}
use ebc_node.MsgPack.Unpack.{unpack-self_id, unpack-ne-stuck}
use ebc_node.Engine.{Engine, add_peer_node, add_peer_node_id, announced_node, put_peer}
use ebc_node.Engine.World.{◌>>=◌, ◌>>◌, update, Udt, World, Call, recv, send}
use ebc_node.Engine.Punch.{start_punch}
use ebc_node.Engine.Punch.Sockets.{start_punch_settles}
use ebc_node.Engine.Message.{
  buffer_size, received_into, meet, meet_all, on_get_node, dispatch, handle_msg,
}
use mathlib.Core.Path.{subst}
use ebc_node.Engine.Message.Meets.{endpoint-made}
use ebc_node.Engine.Message.Echo.{echo, on_get_node-echoes}
use ebc_node.Engine.Message.Reads.{after_recv}

-- What a node can handle without harm: a request whose reply fits the buffer; a list of nodes with ids
-- that can be read, and a notice with such a node; any other reply; and any other type.
pub data IsHarmless (w : Wire) (self_id : NodeId) (m : EbcMsg) : Type 0 where
  asks :
      m.type ≡ type_get_node
      → m.ttl < 2 ^ 32
      → m.id < 2 ^ 32
      → Msg.byte_size w (echo self_id m) ≤ buffer_size
      → IsHarmless w self_id m
  lists :
      m.type ≡ type_rep
      → m.sub_type ≡ sub_node
      → All (λ (n : EbcNode). 19 ≤ length n.id) (nodes m).ebcnodes
      → IsHarmless w self_id m
  tells : m.type ≡ type_rep → m.sub_type ≢ sub_node → IsHarmless w self_id m
  punches :
      (n : EbcNode) (ns : List EbcNode)
      → m.type ≡ type_punch
      → (nodes m).ebcnodes ≡ n ∷ ns
      → 19 ≤ length n.id
      → IsHarmless w self_id m
  passes : m.type ≢ type_get_node → m.type ≢ type_rep → m.type ≢ type_punch → IsHarmless w self_id m

-- Nothing but the peers and the index has changed.
abbrev pub SameButPeers : Engine → Engine → Type 0
SameButPeers e e' = e' ≡ record e { peer_node = e'.peer_node; sock_id_pair = e'.sock_id_pair }

SameButPeers-trans : (a b c : Engine) → SameButPeers a b → SameButPeers b c → SameButPeers a c
SameButPeers-trans a b c h k =
    k ∙ ap (λ (e : Engine). record e { peer_node = c.peer_node; sock_id_pair = c.sock_id_pair }) h

string_to_node_id-defined :
    (s : List ℕ) → 19 ≤ length s → (id : NodeId) × (string_to_node_id s ≡ some id)
unfolding string_to_node_id
string_to_node_id-defined s h =
    (take 20 (s ++ (0 ∷ [])), ground (arith, h, length-append s (0 ∷ [])))

add_peer_node-defined :
    (memory id : List ℕ) (ip port_nat sock : ℕ) (e : Engine)
    → 16 ≤ length memory
    → 19 ≤ length id
    → (e' : Engine) × (add_peer_node memory id ip port_nat sock e ≡ some e') × SameButPeers e e'
unfolding add_peer_node add_peer_node_id announced_node put_peer
add_peer_node-defined memory id ip port_nat sock e room long =
    let (nid, known) = string_to_node_id-defined id long in
    let (addr, made) = endpoint-made memory (par_port port_nat) ip room in
    (
      put_peer nid (set_sock sock (set_nat (par_nat port_nat) (set_addr addr (new_node nid)))) sock
          e,
      rw (known, made) refl,
      refl,
    )

pub asked :
    (w : Wire) (udt : Udt) (sock : ℕ) (p : MsgPack) (s : World)
    → p.ebc_msg.type ≡ type_get_node
    → dispatch w udt sock p s ≡ on_get_node w udt sock p s
unfolding dispatch
asked w udt sock p s is = rw (is, dispatch) refl

module _ (udt : Udt) (room : (calls : List Call) → 16 ≤ length (udt.memory calls)) where
  meet-defined :
      (n : EbcNode) (s : World)
      → 19 ≤ length n.id
      → (s' : World) × (meet udt n s ≡ some (tt, s')) × SameButPeers s.engine s'.engine
  unfolding meet
  meet-defined n s h =
      let (r, s', run, same, settled) = start_punch_settles udt n.ip (par_port n.port_nat) s in
      go r s' run same
    where
      go :
          (r : Option ℕ) (s' : World)
          → start_punch udt n.ip (par_port n.port_nat) s ≡ some (r, s')
          → s'.engine ≡ s.engine
          → (s'' : World) × (meet udt n s ≡ some (tt, s'')) × SameButPeers s.engine s''.engine
      go none s' run same =
          (s', rw (meet, ◌>>=◌, run), subst (λ e. SameButPeers e s'.engine) same refl)
      go (some sock) s' run same =
          let (e, put, rest) =
            add_peer_node-defined (udt.memory s'.calls) n.id n.ip n.port_nat sock s'.engine
              (room s'.calls) h in
          (
            record s' { engine = e },
            rw (meet, ◌>>=◌, run, update, put),
            subst (λ old. SameButPeers old e) same rest,
          )

  meet_all-defined :
      (ns : List EbcNode) (s : World)
      → All (λ (n : EbcNode). 19 ≤ length n.id) ns
      → (s' : World) × (meet_all udt ns s ≡ some (tt, s')) × SameButPeers s.engine s'.engine
  unfolding meet_all
  meet_all-defined [] s h = (s, refl, refl)
  meet_all-defined (n ∷ ns) s (h, hs) =
      let (t, first, met) = meet-defined n s h in
      let (u, others, all) = meet_all-defined ns t hs in
      (
        u,
        rw (meet_all, ◌>>◌, ◌>>=◌, first) others,
        SameButPeers-trans s.engine t.engine u.engine met all,
      )

  module _ {w : Wire} (laws : WireLaws w) (sock : ℕ) (p : MsgPack) (s : World)
      (size : length p.self_id ≡ 20) (alone : s.engine.is_server ≡ false) where
    pub dispatch-defined :
        IsHarmless w p.self_id p.ebc_msg
        → (s' : World) × (dispatch w udt sock p s ≡ some (tt, s')) × SameButPeers s.engine s'.engine
    unfolding dispatch ebcnodes_at
    dispatch-defined (asks is ttl id fits) = (
      record s { calls = send sock (serialize w (echo p.self_id p.ebc_msg)) ∷ s.calls },
      asked w udt sock p s is ∙ on_get_node-echoes laws udt sock p s size ttl id alone fits,
      refl,
    )
    dispatch-defined (lists is sub ids) =
        let (s', run, same) = meet_all-defined (nodes p.ebc_msg).ebcnodes s ids in
        (s', rw (is, sub, dispatch) run, same)
    dispatch-defined (tells is sub) =
        let other : (p.ebc_msg.sub_type == sub_node) ≡ false = ground (arith, sub) in
        (s, rw (is, other, dispatch) refl, refl)
    dispatch-defined (punches n ns is has long) =
        let (s', run, same) = meet-defined n s long in (s', rw (is, has, dispatch) run, same)
    dispatch-defined (passes a b c) =
        let not_get : (p.ebc_msg.type == type_get_node) ≡ false = ground (arith, a) in
        let not_rep : (p.ebc_msg.type == type_rep) ≡ false = ground (arith, b) in
        let not_punch : (p.ebc_msg.type == type_punch) ≡ false = ground (arith, c) in
        (s, rw (not_get, not_rep, not_punch, dispatch) refl, refl)

-- A node that is no server, has an id of 20 bytes and gets 16 bytes of memory whenever it asks:
-- whatever UDT answers and whatever bytes arrive, if a message that `unpack` accepts of them is
-- harmless, `handleMsg` comes to an end with nothing undefined, the printing by `msgPrint` left
-- aside, and changes nothing of the engine but its peers and the index.
pub handle_msg-survives :
    {w : Wire} (laws : WireLaws w) (udt : Udt) (sock : ℕ) (s : World)
    → ((calls : List Call) → 16 ≤ length (udt.memory calls))
    → s.engine.is_server ≡ false
    → length s.engine.self.id ≡ 20
    → ((bytes : List ℕ) (p : MsgPack)
        → udt.received (recv sock buffer_size ∷ s.calls) ≡ some bytes
        → unpack w (new_pack s.engine.self.id) (received_into buffer_size bytes) (length bytes)
          ≡ ok p
        → IsHarmless w s.engine.self.id p.ebc_msg)
    → (s' : World) × (handle_msg w udt sock s ≡ some (tt, s')) × SameButPeers s.engine s'.engine
unfolding handle_msg new_pack
handle_msg-survives {w} laws udt sock s room alone size harmless =
    elim (Option-cases (udt.received (recv sock buffer_size ∷ s.calls))) [
      | inl nothing_came ↦ (after_recv sock s, rw (nothing_came, handle_msg) refl, refl)
      | inr (bytes, got) ↦
          elim (Result-cases (unpack w fresh_pack (received_into buffer_size bytes) (length bytes))
            (unpack-ne-stuck laws fresh_pack (received_into buffer_size bytes) (length bytes))) [
              | inr refused ↦ (after_recv sock s, rw (got, refused, handle_msg) refl, refl)
              | inl (p, accepted) ↦
                  let own : p.self_id ≡ s.engine.self.id =
                    unpack-self_id w fresh_pack p (received_into buffer_size bytes) (length bytes)
                      accepted in
                  let (s', run, same) =
                    dispatch-defined udt room laws sock p (after_recv sock s) (rw own size) alone (
                      subst (λ i. IsHarmless w i p.ebc_msg) (sym own)
                        (harmless bytes p got accepted)) in
                  (s', rw (got, accepted, handle_msg) run, same)
            ]
    ]
  where
    fresh_pack : MsgPack
    fresh_pack = new_pack s.engine.self.id
