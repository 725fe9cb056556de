-- ===== src/Engine/Server/Thread.antt =====
-- src/netengine.cpp: the thread that `startServer` makes, over a number of rounds.
use ebc_node.Base.{ℕ, zero, suc, if◌then◌else◌}
use ebc_node.Engine.World.{Udt, M, ◌>>=◌, ◌>>◌, return, if_some, ask, get}
use ebc_node.Node.{id_key, sock_key}
use ebc_node.Wire.{Wire}
use ebc_node.Engine.World.{
  Waited, below, minus_one, nothing, events, epoll_wait, Ended, returned, cleared, going,
}
use ebc_node.Engine.Server.{server_round, start_server}

-- The events of one `epoll_wait`, and then `rest`.
unfoldable pub server_wait : Wire → Udt → ℕ → Waited → M Ended → M Ended
server_wait w udt server got rest = elim got.ret [
  | below ↦ return returned
  | minus_one ↦ return returned
  | nothing ↦ rest
  | events ↦ server_round w udt server got.errfds got.readfds >> rest
]

-- `while(server_thread_flag)`.
unfoldable pub server_loop : Wire → Udt → ℕ → ℕ → M Ended
server_loop w udt server zero = return going
server_loop w udt server (suc rounds) = do
  engine ← get
  if engine.server_thread_flag
      then (do
        got ← ask epoll_wait udt.waited
        server_wait w udt server got (server_loop w udt server rounds))
      else return cleared

-- `startServer` and its thread.
unfoldable pub server_thread : Wire → Udt → ℕ → M Ended
server_thread w udt rounds = do
  started ← start_server udt
  if_some started (λ server. server_loop w udt server rounds) (return returned)
