-- ===== src/Engine/System/Start.antt =====
-- What `startServer`, `startClient` and the destructor keep.
use ebc_node.Base.{ℕ, false, List, [], ◌∷◌, true, none, some, ◌==◌, length}
use ebc_node.Engine.World.{
  Udt, World, Call, socket_value, SockOption, udt_sndsyn, udt_rcvsyn, udt_sndbuf, udt_rcvbuf,
  setsockopt, getsockname, close, defined, look, socket, listen, bind, epoll_add, return, ask, call,
  get, modify,
}
use ebc_node.Engine.{SockIn}
use ebc_node.Utils.{srv_port}
use ebc_node.Node.{Node, NodeId, id_key, sock_key}
use ebc_node.Engine.Punch.{set_udt_opt, set_options}
use ebc_node.Engine.World.{epoll_create}
use ebc_node.Engine.Kept.{OnStart, OnEnds, IsQuiet}
use ebc_node.Engine.World.Rules.{
  Keeps, >>=-Keeps, >>-Keeps, return-Keeps, ask-Keeps, get-Keeps, modify-Keeps, if-Keeps,
  if_some-Keeps, called, look-Keeps, defined-Keeps,
}
use ebc_node.Engine.Client.{read_events, start_client, close_all, destroy}
use ebc_node.Engine.Server.{htons, listen_on, start_server}

module _ (P : World → Type 0)
    (calls : (c : Call) → IsQuiet c → (s : World) → P s → P (called c s)) where
  set_options-Keeps :
      (udt : Udt) (sock : ℕ) (os : List SockOption) → Keeps P (set_options udt sock os)
  unfolding set_options
  set_options-Keeps udt sock [] = return-Keeps P tt
  set_options-Keeps udt sock (o ∷ os) =
      >>=-Keeps P (ask (setsockopt sock o) udt.succeeds) _
        (ask-Keeps P (setsockopt sock o) udt.succeeds (calls (setsockopt sock o) tt))
        (λ done.
          if-Keeps P done (set_options udt sock os) (return tt) (set_options-Keeps udt sock os)
            (return-Keeps P tt))

  set_udt_opt-Keeps : (udt : Udt) (sock : ℕ) → Keeps P (set_udt_opt udt sock)
  unfolding set_udt_opt
  set_udt_opt-Keeps udt sock =
      set_options-Keeps udt sock (udt_sndsyn ∷ udt_rcvsyn ∷ udt_sndbuf ∷ udt_rcvbuf ∷ [])

module _ (P : World → Type 0) (h : OnStart P) where
  call-Keeps : (c : Call) → IsQuiet c → Keeps P (call c)
  call-Keeps c quiet = ask-Keeps P c (λ _. tt) (h.calls c quiet)

  listen_on-Keeps : (udt : Udt) (server : ℕ) → Keeps P (listen_on udt server)
  unfolding listen_on
  listen_on-Keeps udt server =
      let any : SockIn = record { sin_addr = 0; sin_port = htons srv_port } in
      >>-Keeps P (call epoll_create) _ (call-Keeps epoll_create tt) (
        >>-Keeps P (set_udt_opt udt server) _ (set_udt_opt-Keeps P h.calls udt server) (
          >>=-Keeps P (ask (bind server any) udt.succeeds) _
            (ask-Keeps P (bind server any) udt.succeeds (h.calls (bind server any) tt))
            (λ bound.
              if-Keeps P bound _ (return none)
                (>>=-Keeps P (ask (listen server) udt.succeeds) _
                  (ask-Keeps P (listen server) udt.succeeds (h.calls (listen server) tt))
                  (λ heard.
                    if-Keeps P heard _ (return none)
                      (>>-Keeps P (call (epoll_add server read_events)) (return (some server))
                        (call-Keeps (epoll_add server read_events) tt)
                        (return-Keeps P (some server)))
                      (return-Keeps P none)))
                (return-Keeps P none))))

  pub start_server-Keeps : (udt : Udt) → Keeps P (start_server udt)
  unfolding start_server
  start_server-Keeps udt = >>=-Keeps P get _ (get-Keeps P) (λ engine.
      if-Keeps P (length engine.self.id == 0) (return none) _ (return-Keeps P none) (
        >>-Keeps P (modify (λ e. record e { is_server = true; server_thread_flag = true })) _
          (modify-Keeps P _ (h.serves true true))
          (>>=-Keeps P (ask socket udt.a_socket) _
            (ask-Keeps P socket udt.a_socket (h.calls socket tt))
            (λ created. listen_on-Keeps udt (socket_value created)))))

module _ (P : World → Type 0) (h : OnEnds P) where
  pub start_client-Keeps : (udt : Udt) → Keeps P (start_client udt)
  unfolding start_client
  start_client-Keeps udt =
      >>=-Keeps P (ask socket udt.a_socket) _ (ask-Keeps P socket udt.a_socket (h.calls socket))
        (λ created.
          >>-Keeps P (modify (λ e. record e { boot_sock = some (socket_value created) })) _
            (modify-Keeps P _ (h.sets_boot (some (socket_value created))))
            (if_some-Keeps P created _ (return false)
              (λ sock.
                >>-Keeps P (set_udt_opt udt sock) _
                  (set_udt_opt-Keeps P (λ c quiet. h.calls c) udt sock)
                  (>>=-Keeps P get _ (get-Keeps P) (λ engine.
                    >>=-Keeps P (ask (bind sock engine.local_addr) udt.succeeds) _
                      (ask-Keeps P (bind sock engine.local_addr) udt.succeeds
                        (h.calls (bind sock engine.local_addr)))
                      (λ bound.
                        if-Keeps P bound _ (return false)
                          (>>=-Keeps P (ask getsockname udt.succeeds) _
                            (ask-Keeps P getsockname udt.succeeds (h.calls getsockname))
                            (λ named.
                              if-Keeps P named _ (return false)
                                (>>=-Keeps P (look udt.a_name) _ (look-Keeps P udt.a_name) (λ name.
                                  >>-Keeps P
                                    (modify (λ e. record e {
                                      local_addr = name;
                                      boot_thread_flag = true;
                                    }))
                                    (return true) (modify-Keeps P _ (h.sets_local name true))
                                    (return-Keeps P true)))
                                (return-Keeps P false)))
                          (return-Keeps P false)))))
              (return-Keeps P false)))

  close-Keeps : (sock : ℕ) → Keeps P (call (close sock))
  close-Keeps sock = ask-Keeps P (close sock) (λ _. tt) (h.calls (close sock))

  close_all-Keeps : (nodes : List (NodeId × Node)) → Keeps P (close_all nodes)
  unfolding close_all
  close_all-Keeps [] = return-Keeps P tt
  close_all-Keeps ((id, node) ∷ nodes) =
      >>=-Keeps P (defined node.sock) _ (defined-Keeps P node.sock) (λ sock.
        >>-Keeps P (call (close sock)) (close_all nodes) (close-Keeps sock) (close_all-Keeps nodes))

  pub destroy-Keeps : Keeps P destroy
  unfolding destroy
  destroy-Keeps =
      >>-Keeps P (modify (λ e. record e { boot_thread_flag = false; server_thread_flag = false })) _
        (modify-Keeps P _ (h.stops false false))
        (>>=-Keeps P get _ (get-Keeps P) (λ engine.
          >>=-Keeps P (defined engine.boot_sock) _ (defined-Keeps P engine.boot_sock) (λ boot.
            >>-Keeps P (call (close boot)) _ (close-Keeps boot) (
              >>-Keeps P (close_all engine.peer_node) (close_all engine.client_node)
                (close_all-Keeps engine.peer_node) (close_all-Keeps engine.client_node)))))
