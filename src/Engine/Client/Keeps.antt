-- ===== src/Engine/Client/Keeps.antt =====
-- What the thread of the client and `sendHello` keep: every property that is `OnClient`.
use ebc_node.Base.{
  Bool, Bool-cases, Option, inl, inr, ◌∙◌, sym, ap, if◌then◌else◌, ℕ, true, false, List, [], ◌∷◌,
}
use ebc_node.Engine.World.{
  Udt, World, M, ◌>>=◌, send, Call, getsockopt, udt_state, connect, close, epoll_add, epoll_remove,
  ◌>>◌, return, defined, ask, call, get, modify, fresh, send_buffer,
}
use ebc_node.Engine.{SockIn, find_peer_node, update_peer_node, del_peer_node}
use ebc_node.Base.StdMap.{find, insert}
use ebc_node.SockAddr.{new_addr}
use ebc_node.Node.{
  Node, NodeId, connected as is_connected, zero_id, default_node, set_state, id_key, sock_key,
}
use ebc_node.Wire.{Wire}
use ebc_node.MsgPack.{MsgPack, Packed, new_pack}
use ebc_node.Engine.Kept.{OnClient, IsQuiet, dropped}
use ebc_node.Engine.World.Rules.{
  Keeps, >>=-Keeps, >>-Keeps, return-Keeps, defined-Keeps, ask-Keeps, look-Keeps, get-Keeps, called,
  modify-Keeps, if-Keeps, send_buffer-Keeps,
}
use ebc_node.Engine.Message.Keeps.{handle_msg-Keeps}
use ebc_node.Engine.Message.{handle_msg, zeros}
use ebc_node.Engine.Client.{
  node_request, write_events, read_events, is_boot, is_down, on_error, give_up, send_get_node,
  index_id, mark_connected, on_writable, on_readable, greeting, hello_all, hello_round,
}

module _ (P : World → Type 0) (udt : Udt) (h : OnClient udt P) where
  call-Keeps : (c : Call) → IsQuiet c → Keeps P (call c)
  call-Keeps c quiet = ask-Keeps P c (λ _. tt) (h.handled.calls c quiet)

  send-Keeps : (sock : ℕ) (buffer : List ℕ) (n : ℕ) → Keeps P (send_buffer sock buffer n)
  send-Keeps sock buffer n =
      send_buffer-Keeps P sock buffer n (λ bytes. h.handled.calls (send sock bytes) tt)

  state-Keeps : (sock : ℕ) → Keeps P (ask (getsockopt sock udt_state) udt.a_state)
  state-Keeps sock =
      ask-Keeps P (getsockopt sock udt_state) udt.a_state
        (h.handled.calls (getsockopt sock udt_state) tt)

  -- The end of a socket: the one to the server is only taken out of the epoll set.
  drop-Keeps :
      {B : Type 0} (sock : ℕ) (m k : M B)
      → Keeps P m
      → Keeps P k
      → Keeps P (
          call (epoll_remove sock) >> get >>= λ engine.
          if is_boot sock engine.boot_sock
          then m
          else (call (close sock) >> modify (del_peer_node sock) >> k))
  drop-Keeps {B} sock m k hm hk s s' a p e = elim (Bool-cases (is_boot sock s.engine.boot_sock)) [
    | inl boot ↦
        hm (called (epoll_remove sock) s) s' a (h.handled.calls (epoll_remove sock) tt s p)
          (sym (ap (λ (b : Bool). branch b) boot) ∙ e)
    | inr other ↦
        hk (dropped sock (del_peer_node sock) s) s' a (h.drops_peer sock s other p)
          (sym (ap (λ (b : Bool). branch b) other) ∙ e)
  ]
    where
      branch : Bool → Option (B × World)
      branch b =
          (if b then m else (call (close sock) >> modify (del_peer_node sock) >> k))
            (called (epoll_remove sock) s)

  pub on_error-Keeps : (sock : ℕ) → Keeps P (on_error udt sock)
  unfolding on_error
  on_error-Keeps sock =
      >>-Keeps P (ask (getsockopt sock udt_state) udt.a_state) _ (state-Keeps sock)
        (drop-Keeps sock (return tt) (return tt) (return-Keeps P tt) (return-Keeps P tt))

  pub give_up-Keeps : (server : SockIn) (sock : ℕ) → Keeps P (give_up udt server sock)
  unfolding give_up
  give_up-Keeps server sock =
      drop-Keeps sock _ (return true)
        (>>=-Keeps P (ask (connect sock server) udt.succeeds) _
          (ask-Keeps P (connect sock server) udt.succeeds
            (h.handled.calls (connect sock server) tt))
          (λ linked.
            if-Keeps P linked _ (return false)
              (>>-Keeps P (call (epoll_add sock write_events)) (return true)
                (call-Keeps (epoll_add sock write_events) tt) (return-Keeps P true))
              (return-Keeps P false)))
        (return-Keeps P true)

  send_get_node-Keeps : (w : Wire) (sock : ℕ) → Keeps P (send_get_node w sock)
  unfolding send_get_node
  send_get_node-Keeps w sock = >>=-Keeps P get _ (get-Keeps P) (λ engine.
      >>=-Keeps P (defined (node_request w engine.self)) _ (defined-Keeps P _)
        (λ (request : Packed).
          >>=-Keeps P (defined request.buffer) _ (defined-Keeps P _)
            (λ bytes. send-Keeps sock bytes request.ret)))

  mark_connected-Keeps : (sock : ℕ) → Keeps P (mark_connected udt sock)
  unfolding mark_connected index_id
  mark_connected-Keeps sock =
      >>-Keeps P (modify (index_id sock)) _
        (modify-Keeps P (index_id sock)
          (λ s. h.indexes (insert sock zero_id s.engine.sock_id_pair) s))
        (>>=-Keeps P get _ (get-Keeps P) (λ engine.
          >>=-Keeps P (defined (find sock engine.sock_id_pair)) _ (defined-Keeps P _) (λ peer_id.
            >>=-Keeps P (fresh udt) _ (look-Keeps P udt.memory) (λ memory.
              >>=-Keeps P (defined (new_addr memory)) _ (defined-Keeps P _) (λ addr.
                let node =
                  set_state is_connected (find_peer_node peer_id (default_node addr) engine).1 in
                modify-Keeps P (update_peer_node peer_id node) (h.updates_peer peer_id node))))))

  pub on_writable-Keeps :
      (w : Wire) (server : SockIn) (sock : ℕ) → Keeps P (on_writable w udt server sock)
  unfolding on_writable
  on_writable-Keeps w server sock =
      >>=-Keeps P (ask (getsockopt sock udt_state) udt.a_state) _ (state-Keeps sock) (λ state.
        if-Keeps P (is_down state) _ _ (give_up-Keeps server sock) (
          >>-Keeps P (call (epoll_remove sock) >> call (epoll_add sock read_events)) _
            (>>-Keeps P (call (epoll_remove sock)) (call (epoll_add sock read_events))
              (call-Keeps (epoll_remove sock) tt) (call-Keeps (epoll_add sock read_events) tt))
            (>>=-Keeps P get _ (get-Keeps P) (λ engine.
              >>-Keeps P _ (return true)
                (if-Keeps P (is_boot sock engine.boot_sock) (send_get_node w sock)
                  (mark_connected udt sock) (send_get_node-Keeps w sock)
                  (mark_connected-Keeps sock))
                (return-Keeps P true)))))

  pub on_readable-Keeps :
      (w : Wire) (server : SockIn) (sock : ℕ) → Keeps P (on_readable w udt server sock)
  unfolding on_readable
  on_readable-Keeps w server sock =
      >>=-Keeps P (ask (getsockopt sock udt_state) udt.a_state) _ (state-Keeps sock) (λ state.
        if-Keeps P (is_down state) _ _ (give_up-Keeps server sock) (
          >>-Keeps P (handle_msg w udt sock) (return true) (handle_msg-Keeps P udt h.handled w sock)
            (return-Keeps P true)))

  hello_all-Keeps :
      (w : Wire) (peers : List (NodeId × Node)) (hello : List ℕ) (packer : MsgPack)
      (buffer : List ℕ)
      → Keeps P (hello_all w peers hello packer buffer)
  unfolding hello_all
  hello_all-Keeps w [] hello packer buffer = return-Keeps P tt
  hello_all-Keeps w ((id, peer) ∷ peers) hello packer buffer =
      >>=-Keeps P (defined (greeting w packer hello buffer peer.id)) _ (defined-Keeps P _)
        (λ (packed : Packed). >>=-Keeps P (defined packed.buffer) _ (defined-Keeps P _) (λ bytes.
          >>=-Keeps P (defined peer.sock) _ (defined-Keeps P peer.sock) (λ sock.
            >>-Keeps P (send_buffer sock bytes packed.ret) _ (send-Keeps sock bytes packed.ret)
              (hello_all-Keeps w peers hello packed.object bytes))))

  pub hello_round-Keeps : (w : Wire) (hello : List ℕ) → Keeps P (hello_round w hello)
  unfolding hello_round
  hello_round-Keeps w hello =
      >>=-Keeps P get _ (get-Keeps P)
        (λ engine. hello_all-Keeps w engine.peer_node hello (new_pack engine.self.id) (zeros 1024))
