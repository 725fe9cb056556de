-- ===== src/Engine/Server/Keeps.antt =====
-- What the server's thread keeps: every property that is `OnServer`.
use ebc_node.Base.{refl, ℕ, ◌==◌}
use ebc_node.Node.{id_key, sock_key}
use ebc_node.Engine.{del_client_node}
use ebc_node.Engine.World.{Udt, World, getsockopt, udt_state, accept, epoll_add, ask}
use ebc_node.Engine.World.Rules.{
  Keeps, to-Leads, >>=-Keeps, return-Keeps, ask-Keeps, if-Keeps, if_some-Keeps,
}
use ebc_node.Engine.Message.Keeps.{handle_msg-Keeps}
use ebc_node.Engine.Kept.{OnServer, dropped}
use ebc_node.Engine.Client.{read_events}
use ebc_node.Engine.Server.{is_gone, drop_client, on_error, on_readable}
use ebc_node.Wire.{Wire}

module _ (Q : ℕ → Type 0) (P : World → Type 0) (udt : Udt) (h : OnServer udt Q P) where
  drop_client-Keeps : (sock : ℕ) → Q sock → Keeps P (drop_client sock)
  unfolding drop_client
  drop_client-Keeps sock known =
      to-Leads P P (drop_client sock) (λ s. (tt, dropped sock (del_client_node sock) s)) (λ s. refl)
        (λ s. h.drops_client sock s known)

  pub on_error-Keeps : (sock : ℕ) → Q sock → Keeps P (on_error udt sock)
  unfolding on_error
  on_error-Keeps sock known =
      >>=-Keeps P (ask (getsockopt sock udt_state) udt.a_state) _
        (ask-Keeps P (getsockopt sock udt_state) udt.a_state
          (h.handled.calls (getsockopt sock udt_state) tt))
        (λ state. if-Keeps P (is_gone state) _ _ (drop_client-Keeps sock known) (return-Keeps P tt))

  pub on_readable-Keeps :
      (w : Wire) (server sock : ℕ) → Q sock → Keeps P (on_readable w udt server sock)
  unfolding on_readable
  on_readable-Keeps w server sock known =
      if-Keeps P (sock == server) _ _
        (>>=-Keeps P (ask (accept server) udt.a_socket) _
          (ask-Keeps P (accept server) udt.a_socket (h.handled.calls (accept server) tt))
          (λ got.
            if_some-Keeps P got _ _
              (λ client.
                ask-Keeps P (epoll_add client read_events) (λ _. tt)
                  (h.handled.calls (epoll_add client read_events) tt))
              (return-Keeps P tt)))
        (>>=-Keeps P (ask (getsockopt sock udt_state) udt.a_state) _
          (ask-Keeps P (getsockopt sock udt_state) udt.a_state
            (h.handled.calls (getsockopt sock udt_state) tt))
          (λ state.
            if-Keeps P (is_gone state) _ _ (drop_client-Keeps sock known)
              (handle_msg-Keeps P udt h.handled w sock)))
