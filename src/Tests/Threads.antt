-- ===== src/Tests/Threads.antt =====
-- Witnesses for the threads, the greetings and the tables over many calls.
use ebc_node.Base.{ℕ, List, suc, ◌<◌, ◌≡◌, refl, true, false, some, [], ◌∷◌, arith, length}
use ebc_node.Node.{NodeId, new_node, id_key}
use ebc_node.Engine.{new_engine}
use ebc_node.Engine.World.{
  Udt, World, going, returned, socket, getsockname, bind, setsockopt, udt_sndsyn, udt_rcvsyn,
  udt_sndbuf, udt_rcvbuf, epoll_wait,
}
use ebc_node.Engine.Punch.{set_udt_opt, set_options}
use ebc_node.Engine.Client.{start_client, hello_round}
use ebc_node.Engine.Client.Thread.{client_loop, hello_text}
use ebc_node.Engine.Client.HelloText.{length-hello_text}
use mathlib.Core.List.Memᴰ.{head, tail}
use ebc_node.Engine.Message.{buffer_size, received_into, handle_msg}
use ebc_node.Wire.{ok}
use ebc_node.MsgPack.{new_pack, unpack}
use ebc_node.Engine.Client.Greeting.{hello_msg}
use ebc_node.Engine.Message.Reads.{after_recv}
use ebc_node.Engine.Message.Delivery.{sent_by}
use ebc_node.Engine.Client.Hearing.{handle_msg-hears}
use ebc_node.Engine.Client.Greets.{all_greetings, hello_loop-greets}
use ebc_node.Engine.Client.Thread.{hello_loop}
use ebc_node.Engine.Server.Thread.{server_loop}
use ebc_node.Engine.System.{starts_client, here, next}
use ebc_node.Engine.System.Invariant.{first, Reach-IsSound}
use ebc_node.Engine.System.Waiting.{failed_wait, no_events, waits}
use ebc_node.Engine.System.Orderly.{IsOrderly}
use ebc_node.Engine.System.Closings.{Reach-IsOrderly}
use ebc_node.Engine.System.{client_errs}
use ebc_node.Engine.{del_peer_node}
use ebc_node.Engine.Client.{on_error}
use ebc_node.Base.StdMap.{find}
use ebc_node.Engine.World.{close, epoll_remove, getsockopt, udt_state}
use ebc_node.Engine.Tables.{IsKeyed}
use ebc_node.Base.StdMap.Ascending.{IsAscending}
use ebc_node.Engine.Tables.Refines.{client, drop_client, view, run, replay, run_refines}
use ebc_node.Tests.SimpleWire.{simple, simple-WireLaws}
use ebc_node.Tests.Tables.{id_of, node_of, idle, with_client}
use ebc_node.Tests.Engines.{a_udt}

length-hello_text_example : length (hello_text 2147483647) < 64
length-hello_text_example = length-hello_text 2147483647 (omega arith)

abbrev with_peers : World
with_peers = record {
  engine = record idle { peer_node = (id_of 3, node_of 3 6) ∷ (id_of 4, node_of 4 7) ∷ [] };
  calls = [];
}

abbrev greeting_peers : World
greeting_peers = record with_peers {
  engine = record (with_peers.engine) { boot_thread_flag = true };
}

hello_loop-greets_example :
    hello_loop simple 3 12 greeting_peers
    ≡ some (
      going,
      record greeting_peers {
        calls = all_greetings simple (id_of 1) greeting_peers.engine.peer_node (6 ∷ 7 ∷ []) 3 12 [];
      },
    )
hello_loop-greets_example =
    hello_loop-greets simple-WireLaws 3 12 (6 ∷ 7 ∷ []) greeting_peers (omega arith) refl refl
      (refl, refl, (refl, refl, tt))

-- A UDT from which what is sent to the second peer is received.
abbrev greeted : Udt
greeted = record a_udt {
  received = λ cs. sent_by 7 (hello_round simple (hello_text 12)) with_peers;
}

abbrev listening : World
listening = record { engine = idle; calls = [] }

handle_msg-hears_example :
    (bytes : List ℕ) × (dst : NodeId) × (sent_by 7 (hello_round simple (hello_text 12)) with_peers
      ≡ some bytes)
    × (unpack simple (new_pack (id_of 1)) (received_into buffer_size bytes) (length bytes)
        ≡ ok (record {
          self_id = id_of 1;
          ebc_msg = hello_msg simple (id_of 1) (hello_text 12) dst;
        }))
    × (handle_msg simple greeted 3 listening ≡ some (tt, after_recv 3 listening))
handle_msg-hears_example =
    handle_msg-hears simple-WireLaws greeted 12 (6 ∷ 7 ∷ []) with_peers 7 listening 3 (omega arith)
      refl (refl, refl, (refl, refl, tt)) (tail (head refl)) refl

abbrev failing : Udt
failing = record a_udt { waited = λ cs. no_events }

abbrev running : World
running = record { engine = record idle { boot_thread_flag = true }; calls = [] }

failed_wait_example :
    (client_loop simple failing (record { sin_addr = 0; sin_port = 0 }) 5 running
      ≡ some (going, record running { calls = waits 5 [] }))
    × (server_loop simple failing 4 (suc 5) running
        ≡ some (returned, record running { calls = epoll_wait ∷ [] }))
failed_wait_example =
    failed_wait simple failing (record { sin_addr = 0; sin_port = 0 }) 4 5 running (λ cs. refl) refl
      refl

run_refines_example :
    view (run (client (id_of 3) (node_of 3 6) 6 ∷ drop_client 5 ∷ []) with_client)
    ≡ replay (client (id_of 3) (node_of 3 6) 6 ∷ drop_client 5 ∷ []) (view with_client)
run_refines_example =
    run_refines (client (id_of 3) (node_of 3 6) 6 ∷ drop_client 5 ∷ []) with_client

abbrev started : World
started = record {
  engine = record (new_engine false false (id_of 1) false) {
    boot_sock = some 9;
    boot_thread_flag = true;
  };
  calls =
      getsockname
      ∷ bind 9 (record { sin_addr = 0; sin_port = 0 })
      ∷ setsockopt 9 udt_rcvbuf
      ∷ setsockopt 9 udt_sndbuf
      ∷ setsockopt 9 udt_rcvsyn
      ∷ setsockopt 9 udt_sndsyn
      ∷ socket
      ∷ [];
}

client_starts : start_client a_udt (first false false (id_of 1) false) ≡ some (true, started)
unfolding start_client set_udt_opt set_options new_engine
client_starts = refl

Reach-IsSound_example :
    (started.engine.self ≡ new_node (id_of 1))
    × IsKeyed started.engine.client_node
    × IsAscending started.engine.client_node
    × IsAscending started.engine.peer_node
Reach-IsSound_example =
    Reach-IsSound simple a_udt false false (id_of 1) false started
      (next here (starts_client true client_starts))

-- The client's thread is told of an error of socket 5, and of the one to the server.
abbrev linked : World
linked = record { engine = record idle { boot_sock = some 4 }; calls = [] }

abbrev closed_5 : World
closed_5 = record linked { calls = close 5 ∷ epoll_remove 5 ∷ getsockopt 5 udt_state ∷ [] }

abbrev kept_4 : World
kept_4 = record linked {
  calls =
      epoll_remove 4
      ∷ getsockopt 4 udt_state
      ∷ close 5
      ∷ epoll_remove 5
      ∷ getsockopt 5 udt_state
      ∷ [];
}

closes_5 : on_error a_udt 5 linked ≡ some (tt, closed_5)
unfolding on_error del_peer_node find
closes_5 = refl

keeps_4 : on_error a_udt 4 closed_5 ≡ some (tt, kept_4)
unfolding on_error
keeps_4 = refl

Reach-IsOrderly_example : (kept_4.engine.boot_sock ≡ some 4) × IsOrderly a_udt 4 kept_4.calls
Reach-IsOrderly_example =
    Reach-IsOrderly simple a_udt 4 linked kept_4
      (next (next here (client_errs 5 closes_5)) (client_errs 4 keeps_4)) ((tt, tt), tt) refl tt
