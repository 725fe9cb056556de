-- ===== src/Engine/Message/Exact.antt =====
-- src/netengine.cpp: the harmless messages, and what `handleMsg` does with the others, at a node that
-- is no server.
use ebc_node.Base.{
  ℕ, ◌^◌, ◌%◌, ◌≤◌, ◌<◌, ◌≡◌, ◌↔◌, refl, sym, ◌∙◌, inl, inr, Bool-cases, true, false, Option, none,
  some, List, [], ◌∷◌, arith, leb, ◌==◌, length, All,
}
use mathlib.Core.Path.{subst}
use ebc_node.Wire.{Wire, ok}
use ebc_node.Wire.Laws.{WireLaws}
use ebc_node.Utils.{par_port}
use ebc_node.Node.Id.{string_to_node_id_short}
use ebc_node.Proto.Enums.{type_get_node, type_rep, type_punch, sub_node}
use ebc_node.Proto.Node.{EbcNode}
use ebc_node.Proto.Nodes.{ebcnodes_at}
use ebc_node.Proto.Msg.{nodes}
use ebc_node.MsgPack.{MsgPack, new_pack, unpack}
use ebc_node.MsgPack.Unpack.{unpack-self_id}
use ebc_node.Engine.{SockIn, add_peer_node}
use ebc_node.Engine.World.{
  Udt, World, Call, udt_sndsyn, udt_rcvsyn, udt_sndbuf, udt_rcvbuf, udt_rendezvous, socket,
  setsockopt, bind, connect, epoll_add, recv, ◌>>=◌, update, >>=-eq, >>=-eq-some,
}
use ebc_node.Engine.Punch.{start_punch, punch_bind, punch_connect, set_udt_opt, all_events}
use ebc_node.Engine.Punch.Sockets.{set_options_lem}
use ebc_node.Engine.Message.{buffer_size, received_into, meet, meet_all, dispatch, handle_msg}
use ebc_node.Proto.Msg
use ebc_node.Engine.Message.Requests.{dispatch-no_nodes}
use ebc_node.Engine.Message.Echo.{echo, on_get_node-leaks}
use ebc_node.Engine.Message.Survives.{
  IsHarmless, asks, lists, tells, punches, passes, asked, dispatch-defined,
}
use ebc_node.Engine.Message.Reads.{after_recv}

module _ (udt : Udt) (gives : (calls : List Call) → (sock : ℕ) × (udt.a_socket calls ≡ some sock))
    (succeeds : (calls : List Call) → udt.succeeds calls ≡ true) where
  punch_connect-made :
      (sock : ℕ) (peer : SockIn) (s : World)
      → punch_connect udt sock peer s
        ≡ some (
          some sock,
          record s { calls = epoll_add sock all_events ∷ connect sock peer ∷ s.calls },
        )
  unfolding punch_connect
  punch_connect-made sock peer s = rw (succeeds (connect sock peer ∷ s.calls)) refl

  punch_bind-made :
      (sock : ℕ) (peer : SockIn) (s : World)
      → (s' : World) × (punch_bind udt sock peer s ≡ some (some sock, s'))
  unfolding punch_bind set_udt_opt
  punch_bind-made sock peer s =
      let local = s.engine.local_addr in
      let start : World = record s { calls = setsockopt sock udt_rendezvous ∷ s.calls } in
      let (calls, options) =
        set_options_lem udt sock (udt_sndsyn ∷ udt_rcvsyn ∷ udt_sndbuf ∷ udt_rcvbuf ∷ []) start in
      let bound : World = record s { calls = bind sock local ∷ calls } in
      (
        record bound { calls = epoll_add sock all_events ∷ connect sock peer ∷ bound.calls },
        >>=-eq (set_udt_opt udt sock) _ start options
            ∙ rw (succeeds (bind sock local ∷ calls)) (punch_connect-made sock peer bound),
      )

  start_punch-made :
      (ip port : ℕ) (s : World)
      → (sock : ℕ) × (s' : World) × (start_punch udt ip port s ≡ some (some sock, s'))
  unfolding start_punch
  start_punch-made ip port s =
      let (sock, made) = gives (socket ∷ s.calls) in
      let (s', run) =
        punch_bind-made sock (record { sin_addr = ip; sin_port = port % 2 ^ 16 })
          (record s { calls = socket ∷ s.calls }) in
      (sock, s', rw (made, start_punch) run)

  undefined_lem : {s' : World} → ◌≡◌ {A = Option (Unit {0} × World)} none (some (tt, s')) → ⊥
  undefined_lem e = cc

  -- Where the node has a short id, it is read out of bounds.
  meet-long : (n : EbcNode) (s s' : World) → meet udt n s ≡ some (tt, s') → 19 ≤ length n.id
  unfolding meet add_peer_node
  meet-long n s s' run = elim (Bool-cases (leb 19 (length n.id))) [
    | inl long ↦ ground (arith, long)
    | inr short ↦
        let (sock, t, made) = start_punch-made n.ip (par_port n.port_nat) s in
        let unread = string_to_node_id_short n.id (ground (arith, short)) in
        absurd (undefined_lem (sym (rw (made, ◌>>=◌, unread, update, meet) refl) ∙ run))
  ]

  meet_all-long :
      (ns : List EbcNode) (s s' : World)
      → meet_all udt ns s ≡ some (tt, s')
      → All (λ (n : EbcNode). 19 ≤ length n.id) ns
  unfolding meet_all
  meet_all-long [] s s' run = tt
  meet_all-long (n ∷ ns) s s' run =
      let (_, t, first, rest) = >>=-eq-some (meet udt n) (λ _. meet_all udt ns) s run in
      (meet-long n s t first, meet_all-long ns t s' rest)

  module _ {w : Wire} (laws : WireLaws w) (sock : ℕ) (p : MsgPack) (s : World)
      (size : length p.self_id ≡ 20) (alone : s.engine.is_server ≡ false)
      (ttl : p.ebc_msg.ttl < 2 ^ 32) (id : p.ebc_msg.id < 2 ^ 32) where
    get_node-IsHarmless :
        (s' : World)
        → p.ebc_msg.type ≡ type_get_node
        → dispatch w udt sock p s ≡ some (tt, s')
        → IsHarmless w p.self_id p.ebc_msg
    unfolding dispatch
    get_node-IsHarmless s' is run =
        elim (Bool-cases (leb (Msg.byte_size w (echo p.self_id p.ebc_msg)) buffer_size)) [
          | inl fits ↦ asks is ttl id (ground (arith, fits))
          | inr over ↦
              let leaks =
                on_get_node-leaks laws udt sock p s size ttl id alone (ground (arith, over)) in
              absurd (undefined_lem (sym (asked w udt sock p s is ∙ leaks) ∙ run))
        ]

    rep-IsHarmless :
        (s' : World)
        → p.ebc_msg.type ≡ type_rep
        → dispatch w udt sock p s ≡ some (tt, s')
        → IsHarmless w p.self_id p.ebc_msg
    unfolding dispatch
    rep-IsHarmless s' is run = elim (Bool-cases (p.ebc_msg.sub_type == sub_node)) [
      | inl sub ↦
          lists is (ground (arith, sub))
            (meet_all-long (nodes p.ebc_msg).ebcnodes s s' (simp (is, sub) at run))
      | inr other ↦ tells is (λ e. ground (arith, e, other))
    ]

    punch-IsHarmless :
        (s' : World)
        → p.ebc_msg.type ≡ type_punch
        → dispatch w udt sock p s ≡ some (tt, s')
        → IsHarmless w p.self_id p.ebc_msg
    unfolding dispatch ebcnodes_at
    punch-IsHarmless s' is run = go (nodes p.ebc_msg).ebcnodes refl
      where
        go :
            (ns : List EbcNode) → (nodes p.ebc_msg).ebcnodes ≡ ns → IsHarmless w p.self_id p.ebc_msg
        go [] lacks =
            absurd (undefined_lem (sym (dispatch-no_nodes w udt sock p s lacks (inl is)) ∙ run))
        go (n ∷ ns) has = punches n ns is has (meet-long n s s' (simp (is, has) at run))

    dispatch-IsHarmless :
        (s' : World) → dispatch w udt sock p s ≡ some (tt, s') → IsHarmless w p.self_id p.ebc_msg
    dispatch-IsHarmless s' run = elim (Bool-cases (p.ebc_msg.type == type_get_node)) [
      | inl is ↦ get_node-IsHarmless s' (ground (arith, is)) run
      | inr a ↦ elim (Bool-cases (p.ebc_msg.type == type_rep)) [
        | inl is ↦ rep-IsHarmless s' (ground (arith, is)) run
        | inr b ↦ elim (Bool-cases (p.ebc_msg.type == type_punch)) [
          | inl is ↦ punch-IsHarmless s' (ground (arith, is)) run
          | inr c ↦
              passes (λ e. ground (arith, e, a)) (λ e. ground (arith, e, b))
                (λ e. ground (arith, e, c))
        ]
      ]
    ]

-- A node that is no server and has an id of 20 bytes receives bytes that `unpack` accepts as a
-- message, whose `ttl` and `id` are numbers of 32 bits; it gets 16 bytes of memory and a socket
-- whenever it asks, and no call that may fail does: `handleMsg` comes to an end with nothing
-- undefined, the printing by `msgPrint` left aside, exactly when the message is harmless.
pub handle_msg_iff :
    {w : Wire} (laws : WireLaws w) (udt : Udt) (sock : ℕ) (bytes : List ℕ) (p : MsgPack) (s : World)
    → ((calls : List Call) → 16 ≤ length (udt.memory calls))
    → ((calls : List Call) → (made : ℕ) × (udt.a_socket calls ≡ some made))
    → ((calls : List Call) → udt.succeeds calls ≡ true)
    → s.engine.is_server ≡ false
    → length s.engine.self.id ≡ 20
    → udt.received (recv sock buffer_size ∷ s.calls) ≡ some bytes
    → unpack w (new_pack s.engine.self.id) (received_into buffer_size bytes) (length bytes) ≡ ok p
    → p.ebc_msg.ttl < 2 ^ 32
    → p.ebc_msg.id < 2 ^ 32
    → ((s' : World) × (handle_msg w udt sock s ≡ some (tt, s')))
      ↔ IsHarmless w s.engine.self.id p.ebc_msg
unfolding handle_msg new_pack
handle_msg_iff {w} laws udt sock bytes p s room gives succeeds alone size got accepted ttl id = (
  λ (s', run).
      subst (λ i. IsHarmless w i p.ebc_msg) own
        (dispatch-IsHarmless udt gives succeeds laws sock p (after_recv sock s) full alone ttl id s'
          (sym switches ∙ run)),
  λ harmless.
      let (s', run, _) =
        dispatch-defined udt room laws sock p (after_recv sock s) full alone
          (subst (λ i. IsHarmless w i p.ebc_msg) (sym own) harmless) in
      (s', switches ∙ run),
)
  where
    own : p.self_id ≡ s.engine.self.id
    own =
        unpack-self_id w (new_pack s.engine.self.id) p (received_into buffer_size bytes)
          (length bytes) accepted

    full : length p.self_id ≡ 20
    full = rw own size

    switches : handle_msg w udt sock s ≡ dispatch w udt sock p (after_recv sock s)
    switches = rw (got, accepted) refl
