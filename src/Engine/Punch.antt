-- ===== src/Engine/Punch.antt =====
-- `setUdtOpt` and `startPunch`.
use ebc_node.Base.{
  ℕ, zero, suc, ◌+◌, ◌-◌, ◌*◌, ◌/◌, ◌%◌, ◌^◌, ◌≤◌, ◌<◌, ◌≡◌, refl, sym, ap, ◌∙◌, ◌≢◌, ◌↔◌, ◌⊎◌, inl,
  inr, Bool, true, false, not, ◌&&◌, ◌||◌, Option, none, some, List, [], ◌∷◌, ◌++◌, map, arith,
  dec_lt, ℕ_discrete, ltb, leb, ◌==◌, if◌then◌else◌, ltb→lt, ==_iff, Bool-cases, Option-cases,
  length, get_elem?, take, drop, replicate, All, length-append, length-take, length-drop,
  take-append, drop-append, take_all,
}
pub mod Sockets
use ebc_node.Engine.{Engine, SockIn}
use ebc_node.Engine.World.{
  Udt, World, Call, SockOption, udt_sndsyn, udt_rcvsyn, udt_sndbuf, udt_rcvbuf, udt_rendezvous,
  udt_rcvdata, getsockopt, Events, socket, setsockopt, bind, connect, close, epoll_add, M, ◌>>=◌,
  ◌>>◌, return, if_some, ask, call, get,
}

-- The options are set in turn until one fails.
unfoldable pub set_options : Udt → ℕ → List SockOption → M (Unit {0})
set_options udt sock [] = return tt
set_options udt sock (o ∷ os) = ask (setsockopt sock o) udt.succeeds >>= λ done.
    if done then set_options udt sock os else return tt

-- `setUdtOpt`.
unfoldable pub set_udt_opt : Udt → ℕ → M (Unit {0})
set_udt_opt udt sock = set_options udt sock (udt_sndsyn ∷ udt_rcvsyn ∷ udt_sndbuf ∷ udt_rcvbuf ∷ [])

-- `getReadableByte`.
unfoldable get_readable_byte : Udt → ℕ → M (Option ℕ)
get_readable_byte udt sock = ask (getsockopt sock udt_rcvdata) udt.a_count

-- A null events pointer stands for all events.
abbrev pub all_events : Events
all_events = record { on_in = true; on_out = true; on_err = true }

-- `startPunch(epollFd, ip, port)`, whose port is a uint16; `none` is `UDT::INVALID_SOCK`.
unfoldable pub punch_connect : Udt → ℕ → SockIn → M (Option ℕ)
punch_connect udt sock peer_addr = do
  linked ← ask (connect sock peer_addr) udt.succeeds
  if linked
      then (do call (epoll_add sock all_events); return (some sock))
      else (do call (close sock); return none)

unfoldable pub punch_bind : Udt → ℕ → SockIn → M (Option ℕ)
punch_bind udt sock peer_addr = do
  call (setsockopt sock udt_rendezvous)
  set_udt_opt udt sock
  engine ← get
  bound ← ask (bind sock engine.local_addr) udt.succeeds
  if bound then punch_connect udt sock peer_addr else (do call (close sock); return none)

unfoldable pub start_punch : Udt → ℕ → ℕ → M (Option ℕ)
start_punch udt ip port = do
  created ← ask socket udt.a_socket
  if_some created (λ sock. punch_bind udt sock (record { sin_addr = ip; sin_port = port % 2 ^ 16 }))
      (return none)
