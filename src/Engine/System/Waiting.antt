-- ===== src/Engine/System/Waiting.antt =====
-- src/netengine.cpp: the two threads where `epoll_wait` fails.
use ebc_node.Base.{ℕ, zero, suc, ◌≡◌, refl, true, some, List, [], ◌∷◌}
use ebc_node.Wire.{Wire}
use ebc_node.Engine.{SockIn}
use ebc_node.Engine.World.{Udt, World, Waited, minus_one, epoll_wait, Call, returned, going}
use ebc_node.Engine.Client.{client_round, each, until_return}
use ebc_node.Engine.Client.Thread.{client_loop, client_wait}
use ebc_node.Engine.Server.Thread.{server_loop, server_wait}

-- The answer -1, with no socket in any of the sets.
abbrev pub no_events : Waited
no_events = record { ret = minus_one; readfds = []; writefds = []; errfds = [] }

abbrev pub waits : ℕ → List Call → List Call
waits zero before = before
waits (suc n) before = waits n (epoll_wait ∷ before)

module _ (w : Wire) (udt : Udt) (fails : (calls : List Call) → udt.waited calls ≡ no_events) where
  client_loop-spins :
      (server : SockIn) (rounds : ℕ) (s : World)
      → s.engine.boot_thread_flag ≡ true
      → client_loop w udt server rounds s ≡ some (going, record s { calls = waits rounds s.calls })
  unfolding client_loop client_wait client_round each until_return
  client_loop-spins server zero s flag = refl
  client_loop-spins server (suc rounds) s flag =
      simp (flag, fails (epoll_wait ∷ s.calls))
        (client_loop-spins server rounds (record s { calls = epoll_wait ∷ s.calls }) flag)

  server_loop-stops :
      (server rounds : ℕ) (s : World)
      → s.engine.server_thread_flag ≡ true
      → server_loop w udt server (suc rounds) s
        ≡ some (returned, record s { calls = epoll_wait ∷ s.calls })
  unfolding server_loop server_wait
  server_loop-stops server rounds s flag = rw (flag, fails (epoll_wait ∷ s.calls))

-- Where `epoll_wait` answers -1 every time, without a socket in the sets, and the flag of each
-- thread is set: the client's thread waits again in every round and never ends, and the server's
-- returns after its first wait. Neither changes the engine.
pub failed_wait :
    (w : Wire) (udt : Udt) (addr : SockIn) (server rounds : ℕ) (s : World)
    → ((calls : List Call) → udt.waited calls ≡ no_events)
    → s.engine.boot_thread_flag ≡ true
    → s.engine.server_thread_flag ≡ true
    → (client_loop w udt addr rounds s ≡ some (going, record s { calls = waits rounds s.calls }))
      × (server_loop w udt server (suc rounds) s
          ≡ some (returned, record s { calls = epoll_wait ∷ s.calls }))
failed_wait w udt addr server rounds s fails boot serve = (
  client_loop-spins w udt fails addr rounds s boot,
  server_loop-stops w udt fails server rounds s serve,
)
