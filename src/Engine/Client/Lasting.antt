-- ===== src/Engine/Client/Lasting.antt =====
-- The whole thread of a client, where harmless messages arrive.
use ebc_node.Base.{
  ℕ, zero, suc, ◌≡◌, ◌≤◌, refl, true, false, some, List, ◌∷◌, length, if◌then◌else◌,
}
use ebc_node.Wire.{Wire, ok}
use ebc_node.Wire.Laws.{WireLaws}
use ebc_node.Node.{Node}
use ebc_node.MsgPack.{MsgPack, new_pack, unpack}
use ebc_node.Engine.{SockIn}
use ebc_node.Engine.World.{
  Udt, World, Call, recv, connect, epoll_add, epoll_create, epoll_wait, ◌>>=◌, ◌>>◌, M, return, ask,
  call, get, Waited, WaitRet, below, minus_one, nothing, events, Ended, returned, cleared, going,
}
use ebc_node.Engine.World.Lasts.{
  Lasts, >>=-Lasts, >>-Lasts, return-Lasts, ask-Lasts, get-Lasts, if-Lasts,
}
use ebc_node.Engine.Message.{buffer_size, received_into}
use ebc_node.Engine.Message.Survives.{IsHarmless}
use ebc_node.Engine.Client.{write_events, begin_client, client_round}
use ebc_node.Engine.Client.Thread.{client_wait, client_loop, client_thread}
use ebc_node.Engine.Client.Survives.{IsAlone, client_round-Lasts}

module _ {w : Wire} (laws : WireLaws w) (udt : Udt) (self : Node) (size : length self.id ≡ 20)
    (room : (calls : List Call) → 16 ≤ length (udt.memory calls))
    (harmless : (sock : ℕ) (calls : List Call) (bytes : List ℕ) (p : MsgPack)
      → udt.received (recv sock buffer_size ∷ calls) ≡ some bytes
      → unpack w (new_pack self.id) (received_into buffer_size bytes) (length bytes) ≡ ok p
      → IsHarmless w self.id p.ebc_msg)
    (server : SockIn) where
  client_wait-Lasts :
      (got : Waited) (rest : M Ended)
      → Lasts (IsAlone self) rest
      → Lasts (IsAlone self) (client_wait w udt server got rest)
  unfolding client_wait
  client_wait-Lasts got rest h = waits got.ret
    where
      round : M Ended
      round = client_round w udt server got.errfds got.writefds got.readfds >>= λ on.
          if on then rest else return returned

      round-Lasts : Lasts (IsAlone self) round
      round-Lasts =
          >>=-Lasts (IsAlone self) (client_round w udt server got.errfds got.writefds got.readfds) _
            (client_round-Lasts laws udt self size room harmless server got.errfds got.writefds
              got.readfds)
            (λ on.
              if-Lasts (IsAlone self) on rest (return returned) h
                (return-Lasts (IsAlone self) returned))

      waits :
          (ret : WaitRet)
          → Lasts (IsAlone self) (elim ret [
            | below ↦ return returned
            | nothing ↦ rest
            | minus_one ↦ round
            | events ↦ round
          ])
      waits below = return-Lasts (IsAlone self) returned
      waits nothing = h
      waits minus_one = round-Lasts
      waits events = round-Lasts

  client_loop-Lasts : (rounds : ℕ) → Lasts (IsAlone self) (client_loop w udt server rounds)
  unfolding client_loop
  client_loop-Lasts zero = return-Lasts (IsAlone self) going
  client_loop-Lasts (suc rounds) =
      >>=-Lasts (IsAlone self) get _ (get-Lasts (IsAlone self)) (λ engine.
        if-Lasts (IsAlone self) engine.boot_thread_flag _ (return cleared)
          (>>=-Lasts (IsAlone self) (ask epoll_wait udt.waited) _
            (ask-Lasts (IsAlone self) epoll_wait udt.waited)
            (λ got.
              client_wait-Lasts got (client_loop w udt server rounds) (client_loop-Lasts rounds)))
          (return-Lasts (IsAlone self) cleared))

  client_thread-Lasts :
      (sock rounds : ℕ) → Lasts (IsAlone self) (client_thread w udt server sock rounds)
  unfolding client_thread begin_client
  client_thread-Lasts sock rounds =
      >>=-Lasts (IsAlone self) (begin_client udt server sock) _
        (>>=-Lasts (IsAlone self) (ask (connect sock server) udt.succeeds) _
          (ask-Lasts (IsAlone self) (connect sock server) udt.succeeds)
          (λ linked.
            if-Lasts (IsAlone self) linked _ (return false)
              (>>-Lasts (IsAlone self) (call epoll_create >> call (epoll_add sock write_events))
                (return true)
                (>>-Lasts (IsAlone self) (call epoll_create) (call (epoll_add sock write_events))
                  (ask-Lasts (IsAlone self) epoll_create (λ _. tt))
                  (ask-Lasts (IsAlone self) (epoll_add sock write_events) (λ _. tt)))
                (return-Lasts (IsAlone self) true))
              (return-Lasts (IsAlone self) false)))
        (λ linked.
          if-Lasts (IsAlone self) linked (client_loop w udt server rounds) (return returned)
            (client_loop-Lasts rounds) (return-Lasts (IsAlone self) returned))

-- A node that is no server, has an id of 20 bytes and gets 16 bytes of memory whenever it asks,
-- and where whatever arrives on a socket is harmless, if `unpack` accepts it at all: the thread
-- that `startClient` makes runs for any number of rounds with nothing undefined, the printing by
-- `msgPrint` left aside, whatever sockets `epoll_wait` reports and whatever else UDT answers; and
-- the engine is the same node afterwards, and still no server.
pub client_thread_lasts :
    {w : Wire} (laws : WireLaws w) (udt : Udt) (server : SockIn) (sock rounds : ℕ) (s : World)
    → s.engine.is_server ≡ false
    → length s.engine.self.id ≡ 20
    → ((calls : List Call) → 16 ≤ length (udt.memory calls))
    → ((from : ℕ) (calls : List Call) (bytes : List ℕ) (p : MsgPack)
        → udt.received (recv from buffer_size ∷ calls) ≡ some bytes
        → unpack w (new_pack s.engine.self.id) (received_into buffer_size bytes) (length bytes)
          ≡ ok p
        → IsHarmless w s.engine.self.id p.ebc_msg)
    → (r : Ended) × (s' : World) × (client_thread w udt server sock rounds s ≡ some (r, s'))
      × (s'.engine.is_server ≡ false)
      × (s'.engine.self ≡ s.engine.self)
client_thread_lasts laws udt server sock rounds s alone size room harmless =
    let (r, s', run, same) =
      client_thread-Lasts laws udt s.engine.self size room harmless server sock rounds s
        (alone, refl) in
    (r, s', run, same.0, same.1)
