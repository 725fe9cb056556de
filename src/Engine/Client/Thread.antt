-- ===== src/Engine/Client/Thread.antt =====
-- src/netengine.cpp: the thread that `startClient` makes, and the one that `sendHello` makes, over a
-- number of rounds.
use ebc_node.Base.{
  ℕ, zero, suc, ◌+◌, ◌-◌, ◌^◌, ◌/◌, ◌%◌, Option, none, some, List, [], ◌∷◌, ◌++◌, ltb,
  if◌then◌else◌,
}
use ebc_node.Engine.World.{Udt, M, ◌>>=◌, ◌>>◌, return, defined, ask, get}
use ebc_node.Engine.{SockIn}
use ebc_node.Node.{id_key, sock_key}
use ebc_node.Wire.{Wire}
use ebc_node.Engine.World.{
  Waited, below, minus_one, nothing, events, epoll_wait, Ended, returned, cleared, going,
}
use ebc_node.Engine.Client.{begin_client, client_round, hello_round}

-- The events of one `epoll_wait`, and then `rest`. The thread returns below -1 only.
unfoldable pub client_wait : Wire → Udt → SockIn → Waited → M Ended → M Ended
client_wait w udt server got rest =
    let round : M Ended = (do
      on ← client_round w udt server got.errfds got.writefds got.readfds
      if on then rest else return returned) in
    elim got.ret [ below ↦ return returned | nothing ↦ rest | minus_one ↦ round | events ↦ round ]

-- `while(boot_thread_flag)`.
unfoldable pub client_loop : Wire → Udt → SockIn → ℕ → M Ended
client_loop w udt server zero = return going
client_loop w udt server (suc rounds) = do
  engine ← get
  if engine.boot_thread_flag
      then (do
        got ← ask epoll_wait udt.waited
        client_wait w udt server got (client_loop w udt server rounds))
      else return cleared

unfoldable pub client_thread : Wire → Udt → SockIn → ℕ → ℕ → M Ended
client_thread w udt server sock rounds = do
  linked ← begin_client udt server sock
  if linked then client_loop w udt server rounds else return returned

-- `%d` of a number that is not negative: its last digit is `n % 10`.
unfoldable pub digits : ℕ → ℕ → List ℕ
digits zero n = []
digits (suc fuel) n =
    let rest = digits fuel (n / 10) in
    if ltb n 10 then (b'0' + n) ∷ [] else rest ++ ((b'0' + n % 10) ∷ [])

-- `sprintf(hello_buf, "hello count = %d", count)`, without the closing NUL.
unfoldable pub hello_text : ℕ → List ℕ
unfolding digits
hello_text count =
    b'h'
    ∷ b'e'
    ∷ b'l'
    ∷ b'l'
    ∷ b'o'
    ∷ b' '
    ∷ b'c'
    ∷ b'o'
    ∷ b'u'
    ∷ b'n'
    ∷ b't'
    ∷ b' '
    ∷ b'='
    ∷ b' '
    ∷ digits (suc count) count

-- `count++` of an `int`: at INT_MAX it is undefined.
abbrev pub incremented : ℕ → Option ℕ
incremented count = if ltb count (2 ^ 31 - 1) then some (count + 1) else none

-- The thread of `sendHello`: `count` is a static variable, and the sleep of five seconds is left out.
unfoldable pub hello_loop : Wire → ℕ → ℕ → M Ended
hello_loop w zero count = return going
hello_loop w (suc rounds) count = do
  engine ← get
  if engine.boot_thread_flag
      then (do
        next ← defined (incremented count)
        hello_round w (hello_text count)
        hello_loop w rounds next)
      else return cleared
