-- ===== src/Engine/Server/Start.antt =====
-- How `startServer` ends.
use ebc_node.Base.{ℕ, ◌≡◌, ◌⊎◌, true, false, Option, none, some}
use ebc_node.Utils.{srv_port}
use ebc_node.Engine.{Engine, SockIn}
use ebc_node.Engine.World.{Udt, World, bind, listen, epoll_add}
use ebc_node.Engine.Punch.Sockets.{latest}
use ebc_node.Engine.Client.{read_events}
use ebc_node.Engine.Server.{htons}

-- The address that the server binds its socket to: any of the host's, and `SRV_PORT`.
abbrev pub srv_addr : SockIn
srv_addr = record { sin_addr = 0; sin_port = htons srv_port }

-- Nothing, after a `bind` or a `listen` on the socket that failed, or the socket, which the latest call put
-- into the epoll set.
abbrev pub IsListening : Udt → ℕ → Option ℕ → World → Type 0
IsListening udt server r s =
    ((r ≡ none)
      × (udt.succeeds s.calls ≡ false)
      × ((latest s ≡ some (bind server srv_addr)) ⊎ (latest s ≡ some (listen server))))
    ⊎ ((r ≡ some server) × (latest s ≡ some (epoll_add server read_events)))

-- The engine of a server.
abbrev pub serving : Engine → Engine
serving e = record e { is_server = true; server_thread_flag = true }
