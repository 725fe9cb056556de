-- ===== src/Engine/Client/Survives.antt =====
-- A round of the client's thread, where harmless messages arrive.
use ebc_node.Base.{
  ℕ, ◌≡◌, ◌≤◌, refl, sym, ap, ◌∙◌, Bool, inl, inr, true, false, Option-cases, some, List, [], ◌∷◌,
  arith, length,
}
use mathlib.Core.Path.{subst}
use ebc_node.Wire.{Wire, ok}
use ebc_node.Wire.Laws.{WireLaws}
use ebc_node.Base.StdMap.{find, insert, find-insert}
use ebc_node.SockAddr.Proper.{new_addr-IsProper}
use ebc_node.Node.{
  Node, NodeId, connected as is_connected, zero_id, default_node, set_state, id_key, sock_key,
}
use ebc_node.MsgPack.{MsgPack, new_pack, unpack}
use ebc_node.Engine.{
  Engine, SockIn, find_peer_node, update_peer_node, del_peer_node, del_peer_node_id,
}
use ebc_node.Engine.World.{
  Udt, Call, M, getsockopt, udt_state, recv, connect, close, epoll_add, epoll_remove, ◌>>◌, return,
  ask, call, get, modify,
}
use ebc_node.Engine.World.Lasts.{
  Lasts, >>=-Lasts, >>-Lasts, return-Lasts, ask-Lasts, get-Lasts, modify-Lasts, if-Lasts,
}
use ebc_node.Engine.Message.{buffer_size, received_into, handle_msg}
use ebc_node.Engine.Message.Survives.{IsHarmless, handle_msg-survives}
use ebc_node.Engine.Client.{
  write_events, read_events, is_boot, is_down, on_error, give_up, send_get_node, index_id,
  mark_connected, on_writable, on_readable, until_return, each, client_round,
}
use ebc_node.Engine.Client.Request.{send_get_node-sends}

-- This node, which is no server.
abbrev pub IsAlone : Node → Engine → Type 0
IsAlone self e = (e.is_server ≡ false) × (e.self ≡ self)

module _ {w : Wire} (laws : WireLaws w) (udt : Udt) (self : Node) (size : length self.id ≡ 20)
    (room : (calls : List Call) → 16 ≤ length (udt.memory calls))
    (harmless : (sock : ℕ) (calls : List Call) (bytes : List ℕ) (p : MsgPack)
      → udt.received (recv sock buffer_size ∷ calls) ≡ some bytes
      → unpack w (new_pack self.id) (received_into buffer_size bytes) (length bytes) ≡ ok p
      → IsHarmless w self.id p.ebc_msg) where
  abbrev On {ℓ} : {A : Type ℓ} → M A → Type ℓ
  On m = Lasts (IsAlone self) m

  del_peer_node-IsAlone :
      (sock : ℕ) (e : Engine) → IsAlone self e → IsAlone self (del_peer_node sock e)
  unfolding del_peer_node del_peer_node_id
  del_peer_node-IsAlone sock e h = elim (Option-cases (find sock e.sock_id_pair)) [
    | inl lacks ↦ rw (lacks, del_peer_node) h
    | inr (id, has) ↦ rw (has, del_peer_node) h
  ]

  state-Lasts : (sock : ℕ) → On (ask (getsockopt sock udt_state) udt.a_state)
  state-Lasts sock = ask-Lasts (IsAlone self) (getsockopt sock udt_state) udt.a_state

  call-Lasts : (c : Call) → On (call c)
  call-Lasts c = ask-Lasts (IsAlone self) c (λ _. tt)

  drop_peer-Lasts : (sock : ℕ) → On (call (close sock) >> modify (del_peer_node sock))
  drop_peer-Lasts sock =
      >>-Lasts (IsAlone self) (call (close sock)) (modify (del_peer_node sock))
        (call-Lasts (close sock))
        (modify-Lasts (IsAlone self) (del_peer_node sock) (del_peer_node-IsAlone sock))

  on_error-Lasts : (sock : ℕ) → On (on_error udt sock)
  unfolding on_error
  on_error-Lasts sock =
      >>=-Lasts (IsAlone self)
        (ask (getsockopt sock udt_state) udt.a_state >> call (epoll_remove sock) >> get) _
        (>>-Lasts (IsAlone self)
          (ask (getsockopt sock udt_state) udt.a_state >> call (epoll_remove sock)) get
          (>>-Lasts (IsAlone self) (ask (getsockopt sock udt_state) udt.a_state)
            (call (epoll_remove sock)) (state-Lasts sock) (call-Lasts (epoll_remove sock)))
          (get-Lasts (IsAlone self)))
        (λ engine.
          if-Lasts (IsAlone self) (is_boot sock engine.boot_sock) (return tt) _
            (return-Lasts (IsAlone self) tt) (drop_peer-Lasts sock))

  give_up-Lasts : (server : SockIn) (sock : ℕ) → On (give_up udt server sock)
  unfolding give_up
  give_up-Lasts server sock =
      >>=-Lasts (IsAlone self) (call (epoll_remove sock) >> get) _
        (>>-Lasts (IsAlone self) (call (epoll_remove sock)) get (call-Lasts (epoll_remove sock))
          (get-Lasts (IsAlone self)))
        (λ engine.
          if-Lasts (IsAlone self) (is_boot sock engine.boot_sock) _ _
            (>>=-Lasts (IsAlone self) (ask (connect sock server) udt.succeeds) _
              (ask-Lasts (IsAlone self) (connect sock server) udt.succeeds)
              (λ linked.
                if-Lasts (IsAlone self) linked _ (return false)
                  (>>-Lasts (IsAlone self) (call (epoll_add sock write_events)) (return true)
                    (call-Lasts (epoll_add sock write_events)) (return-Lasts (IsAlone self) true))
                  (return-Lasts (IsAlone self) false)))
            (>>-Lasts (IsAlone self) (call (close sock) >> modify (del_peer_node sock))
              (return true) (drop_peer-Lasts sock) (return-Lasts (IsAlone self) true)))

  send_get_node-Lasts : (sock : ℕ) → On (send_get_node w sock)
  send_get_node-Lasts sock s (alone, own) =
      (tt, _, send_get_node-sends laws sock s (rw own size), (alone, own))

  indexed :
      (sock : ℕ) (m : List (ℕ × NodeId))
      → (id : NodeId) × (find sock (insert sock zero_id m) ≡ some id)
  indexed sock m = elim (Option-cases (find sock m)) [
    | inl lacks ↦ (zero_id, rw (find-insert sock sock zero_id m, lacks) (ground arith))
    | inr (id, has) ↦ (id, rw (find-insert sock sock zero_id m, has) (ground arith))
  ]

  mark_connected-Lasts : (sock : ℕ) → On (mark_connected udt sock)
  unfolding mark_connected index_id update_peer_node
  mark_connected-Lasts sock s alone =
      let (id, known) = indexed sock s.engine.sock_id_pair in
      let (addr, made, _) = new_addr-IsProper (udt.memory s.calls) (room s.calls) in
      let engine = index_id sock s.engine in
      let node = set_state is_connected (find_peer_node id (default_node addr) engine).1 in
      (
        tt,
        record s { engine = update_peer_node id node engine },
        rw (known, made, mark_connected) refl,
        alone,
      )

  handle_msg-Lasts : (sock : ℕ) → On (handle_msg w udt sock)
  handle_msg-Lasts sock s (alone, own) =
      let (s', run, same) =
        handle_msg-survives laws udt sock s room alone (rw own size) (λ bytes p got accepted.
          subst (λ (n : Node). IsHarmless w n.id p.ebc_msg) (sym own)
            (harmless sock s.calls bytes p got (
              subst
                (λ (n : Node).
                  unpack w (new_pack n.id) (received_into buffer_size bytes) (length bytes) ≡ ok p)
                own accepted))) in
      (
        tt,
        s',
        run,
        (ap (λ (e : Engine). e.is_server) same ∙ alone, ap (λ (e : Engine). e.self) same ∙ own),
      )

  on_writable-Lasts : (server : SockIn) (sock : ℕ) → On (on_writable w udt server sock)
  unfolding on_writable
  on_writable-Lasts server sock =
      >>=-Lasts (IsAlone self) (ask (getsockopt sock udt_state) udt.a_state) _ (state-Lasts sock)
        (λ state. if-Lasts (IsAlone self) (is_down state) _ _ (give_up-Lasts server sock) (
          >>-Lasts (IsAlone self) (call (epoll_remove sock) >> call (epoll_add sock read_events)) _
            (>>-Lasts (IsAlone self) (call (epoll_remove sock)) (call (epoll_add sock read_events))
              (call-Lasts (epoll_remove sock)) (call-Lasts (epoll_add sock read_events)))
            (>>=-Lasts (IsAlone self) get _ (get-Lasts (IsAlone self)) (λ engine.
              >>-Lasts (IsAlone self) _ (return true)
                (if-Lasts (IsAlone self) (is_boot sock engine.boot_sock) (send_get_node w sock)
                  (mark_connected udt sock) (send_get_node-Lasts sock) (mark_connected-Lasts sock))
                (return-Lasts (IsAlone self) true)))))

  on_readable-Lasts : (server : SockIn) (sock : ℕ) → On (on_readable w udt server sock)
  unfolding on_readable
  on_readable-Lasts server sock =
      >>=-Lasts (IsAlone self) (ask (getsockopt sock udt_state) udt.a_state) _ (state-Lasts sock)
        (λ state. if-Lasts (IsAlone self) (is_down state) _ _ (give_up-Lasts server sock) (
          >>-Lasts (IsAlone self) (handle_msg w udt sock) (return true) (handle_msg-Lasts sock)
            (return-Lasts (IsAlone self) true)))

  each-Lasts :
      (handle : ℕ → M (Unit {0})) (ss : List ℕ) → ((s : ℕ) → On (handle s)) → On (each handle ss)
  unfolding each
  each-Lasts handle [] h = return-Lasts (IsAlone self) tt
  each-Lasts handle (s ∷ ss) h =
      >>-Lasts (IsAlone self) (handle s) (each handle ss) (h s) (each-Lasts handle ss h)

  until_return-Lasts :
      (handle : ℕ → M Bool) (ss : List ℕ) → ((s : ℕ) → On (handle s)) → On (until_return handle ss)
  unfolding until_return
  until_return-Lasts handle [] h = return-Lasts (IsAlone self) true
  until_return-Lasts handle (s ∷ ss) h = >>=-Lasts (IsAlone self) (handle s) _ (h s) (λ going.
      if-Lasts (IsAlone self) going (until_return handle ss) (return false)
        (until_return-Lasts handle ss h) (return-Lasts (IsAlone self) false))

  pub client_round-Lasts :
      (server : SockIn) (errors writable readable : List ℕ)
      → On (client_round w udt server errors writable readable)
  unfolding client_round
  client_round-Lasts server errors writable readable =
      >>-Lasts (IsAlone self) (each (on_error udt) errors) _
        (each-Lasts (on_error udt) errors on_error-Lasts)
        (>>=-Lasts (IsAlone self) (until_return (on_writable w udt server) writable) _
          (until_return-Lasts (on_writable w udt server) writable (on_writable-Lasts server))
          (λ going.
            if-Lasts (IsAlone self) going (until_return (on_readable w udt server) readable)
              (return false)
              (until_return-Lasts (on_readable w udt server) readable (on_readable-Lasts server))
              (return-Lasts (IsAlone self) false)))
