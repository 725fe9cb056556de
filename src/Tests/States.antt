-- ===== src/Tests/States.antt =====
-- Witnesses for the states that an engine can come into.
use ebc_node.Base.{
  ℕ, ◌≡◌, refl, ltb, if◌then◌else◌, true, false, some, Option, List, [], ◌∷◌, arith, length,
}
use ebc_node.Base.StdMap.{find, insert, place}
use ebc_node.SockAddr.{SockAddr, endpoint}
use ebc_node.Proto.Node.{EbcNode}
use ebc_node.Proto.Msg.{serialize}
use ebc_node.Utils.{par_nat, par_port}
use ebc_node.Node.{new_node, id_key, sock_key}
use ebc_node.Engine.{new_engine, put_client}
use ebc_node.Engine.World.{World, Udt, getsockopt, udt_state}
use ebc_node.Engine.Message.{handle_msg}
use ebc_node.Engine.Message.Introduction.{new_client, seen, told_calls}
use ebc_node.Engine.Message.Reads.{after_recv}
use ebc_node.Engine.Message.Requests.{Told}
use ebc_node.Engine.Message.Announce.{request_msg, CanServe, announced, handle_msg-announces}
use ebc_node.Engine.Server.{on_readable}
use ebc_node.Engine.System.{server_reads, here, next}
use ebc_node.Engine.System.Invariant.{first}
use ebc_node.Engine.System.Serves.{Reach-serves}
use ebc_node.Engine.System.Meeting.{Reach-introduces}
use ebc_node.Engine.Message.Delivery.{sent_by, sent_by-run}
use ebc_node.Engine.Message.Meets.{Met, AllMet}
use ebc_node.Engine.Client.{self_node, send_get_node}
use ebc_node.Engine.Client.Request.{send_get_node-sends, self_node-IsSmall}
use ebc_node.Tests.SimpleWire.{simple, simple-WireLaws}
use ebc_node.Tests.Tables.{id_of}
use ebc_node.Tests.Engines.{a_udt, before}
use ebc_node.Tests.Protocol.{asking, asking-IsSmall}

-- The world of node 4, and what its request consists of.
abbrev newcomer : World
newcomer = first false false (id_of 4) false

abbrev its_request : Option (List ℕ)
its_request = sent_by 4 (send_get_node simple 4) newcomer

-- A UDT from which a request of node 3 is received, and then the one of node 4.
abbrev asked_twice : Udt
asked_twice = record a_udt {
  received = λ cs.
      if ltb (length cs) 3
      then some (serialize simple (request_msg simple (id_of 3) asking))
      else its_request;
}

-- That is what this node sends.
its_request_lem :
    its_request
    ≡ some (serialize simple (request_msg simple (id_of 4) (self_node newcomer.engine.self)))
unfolding new_engine new_node
its_request_lem =
    sent_by-run 4 (send_get_node simple 4) newcomer _
      (send_get_node-sends simple-WireLaws 4 newcomer refl)

-- A new server, and one that is about to read.
abbrev new_server : World
new_server = first false false (id_of 1) true

abbrev ready : World
ready = record new_server { calls = getsockopt 6 udt_state ∷ [] }

ready-CanServe : CanServe simple asked_twice 6 (after_recv 6 ready) asking (id_of 3) [] []
unfolding new_engine new_node
ready-CanServe = record {
  serves = refl;
  self_size = refl;
  src_size = refl;
  told = tt;
  small = tt;
  ip_fits = omega arith;
  port_fits = omega arith;
  memory_fits = omega arith;
}

first_request :
    (addr : SockAddr) × (endpoint
        (asked_twice.memory
          (told_calls simple asked_twice 6 (after_recv 6 ready) asking (id_of 3) []))
        (seen asked_twice 6 (after_recv 6 ready)).sin_port
        (seen asked_twice 6 (after_recv 6 ready)).sin_addr
      ≡ some addr)
    × (handle_msg simple asked_twice 6 ready
        ≡ some
            (tt, announced simple asked_twice 6 asking (id_of 3) [] [] (after_recv 6 ready) addr))
first_request =
    handle_msg-announces simple-WireLaws asked_twice 6 asking (id_of 3) [] [] ready refl
      asking-IsSmall ready-CanServe (omega arith)

abbrev serving : World
serving =
    announced simple asked_twice 6 asking (id_of 3) [] [] (after_recv 6 ready) (first_request.0)

serving-read : on_readable simple asked_twice 0 6 new_server ≡ some (tt, serving)
unfolding on_readable
serving-read = first_request.2

abbrev request_of_4 : EbcNode
request_of_4 = self_node newcomer.engine.self

Reach-serves_example :
    (ns : List EbcNode) × (ss : List ℕ) × (addr : SockAddr) × Told serving.engine.client_node ns ss
    × (endpoint
          (asked_twice.memory
            (told_calls simple asked_twice 7 (after_recv 7 serving) asking (id_of 4) ss))
          (seen asked_twice 7 (after_recv 7 serving)).sin_port
          (seen asked_twice 7 (after_recv 7 serving)).sin_addr
        ≡ some addr)
    × (handle_msg simple asked_twice 7 serving
        ≡ some (
          tt,
          announced simple asked_twice 7 request_of_4 (id_of 4) ns ss (after_recv 7 serving) addr,
        ))
unfolding new_engine new_node put_client insert find place
Reach-serves_example =
    Reach-serves simple-WireLaws asked_twice false false (id_of 1) true serving 7 request_of_4
      (id_of 4) (next here (server_reads 0 6 serving-read)) refl refl (self_node-IsSmall newcomer)
      (λ calls. omega arith) (λ calls. (omega arith, omega arith)) refl (omega arith)
      its_request_lem

-- What node 4 receives from the server, and node 3.
abbrev answered : Udt
answered = record a_udt { received = λ cs. sent_by 7 (handle_msg simple asked_twice 7) serving }

abbrev notified : Udt
notified = record a_udt { received = λ cs. sent_by 6 (handle_msg simple asked_twice 7) serving }

Reach-introduces_example :
    ((ns : List EbcNode) × (ss : List ℕ) × (b : World) × (handle_msg simple answered 4 newcomer
        ≡ some (tt, b))
      × Told serving.engine.client_node ns ss
      × AllMet answered ns (after_recv 4 newcomer) b)
    × ((n : EbcNode) × (c : World) × (handle_msg simple notified 5 before ≡ some (tt, c))
        × (n.id ≡ newcomer.engine.self.id)
        × (n.ip ≡ (seen asked_twice 7 (after_recv 7 serving)).sin_addr)
        × (par_port n.port_nat ≡ (seen asked_twice 7 (after_recv 7 serving)).sin_port)
        × Met notified n (after_recv 5 before) c)
unfolding new_engine new_node put_client insert find place
Reach-introduces_example =
    Reach-introduces simple-WireLaws answered asked_twice notified false false (id_of 1) true
      serving 7 newcomer newcomer 4 before 5 (id_of 3)
      (new_client (id_of 3) (first_request.0) (par_nat 0) 6) 6
      (next here (server_reads 0 6 serving-read)) refl refl (omega arith) refl
      (λ calls. omega arith) (λ calls. omega arith) (λ calls. omega arith)
      (λ calls. (omega arith, omega arith)) refl refl (omega arith) refl refl refl
