-- ===== src/Tests/Tables.antt =====
-- An engine with a client, and the witnesses for its tables.
use ebc_node.Base.{ℕ, ◌≡◌, refl, ◌≢◌, true, false, none, some, [], ◌∷◌, arith, replicate}
use ebc_node.Base.StdMap.{find}
use ebc_node.SockAddr.{SockAddr}
use ebc_node.Node.{Node, NodeId, connected, at, id_key, sock_key}
use ebc_node.Engine.{Engine, put_client, del_client_node}
use mathlib.Core.Quot
use mathlib.Core.List.Permᴰ.{swap}
use ebc_node.Engine.Tables.Arrivals.{
  Arrival, Known, enter_all, enter_all-reorders, client_after, sock_after,
}
use ebc_node.Engine.Tables.{SameTables, del_client_node-put_client}
use ebc_node.Engine.Stale.{stale_client, lost_client}

-- 127.0.0.1, with the bytes of a port.
abbrev an_addr : ℕ → SockAddr
an_addr b = record { len = 16; addr = some (2 ∷ 0 ∷ 128 ∷ b ∷ 127 ∷ 0 ∷ 0 ∷ 1 ∷ replicate 8 0) }

abbrev pub id_of : ℕ → NodeId
id_of b = replicate 20 b

abbrev pub node_of : ℕ → ℕ → Node
node_of b sock = record {
  id = id_of b;
  addr = an_addr b;
  state = connected;
  nat = 3;
  last_tm = at 0;
  ping_count = 0;
  sock = some sock;
}

abbrev pub idle : Engine
idle = record {
  self = node_of 1 0;
  boot_sock = none;
  peer_node = [];
  client_node = [];
  boot_thread_flag = false;
  is_server = true;
  server_thread_flag = true;
  sock_id_pair = [];
  local_addr = record { sin_addr = 0; sin_port = 0 };
}

abbrev pub with_client : Engine
with_client = record idle {
  client_node = (id_of 2, node_of 2 5) ∷ [];
  sock_id_pair = (5, id_of 2) ∷ [];
}

del_client_node-put_client_example :
    SameTables (del_client_node 6 (put_client (id_of 3) (node_of 3 6) 6 with_client)) with_client
unfolding find
del_client_node-put_client_example =
    del_client_node-put_client (id_of 3) (node_of 3 6) 6 with_client refl refl

ids_differ : id_of 3 ≢ id_of 4
ids_differ h = ground arith

socks_differ : ◌≢◌ {A = ℕ} 6 7
socks_differ h = omega arith

abbrev third : Arrival
third = record { id = id_of 3; node = node_of 3 6; sock = 6 }

abbrev fourth : Arrival
fourth = record { id = id_of 4; node = node_of 4 7; sock = 7 }

enter_all-reorders_example :
    (◌≡◌ {A = Known}
      (Quot.mk (enter_all (third ∷ fourth ∷ []) with_client))
      (Quot.mk (enter_all (fourth ∷ third ∷ []) with_client)))
    × ((k : NodeId)
        → (find k (enter_all (third ∷ fourth ∷ []) with_client).client_node
            ≡ client_after k (third ∷ fourth ∷ []) with_client)
          × (find k (enter_all (fourth ∷ third ∷ []) with_client).client_node
              ≡ client_after k (third ∷ fourth ∷ []) with_client))
    × ((s : ℕ)
        → (find s (enter_all (third ∷ fourth ∷ []) with_client).sock_id_pair
            ≡ sock_after s (third ∷ fourth ∷ []) with_client)
          × (find s (enter_all (fourth ∷ third ∷ []) with_client).sock_id_pair
              ≡ sock_after s (third ∷ fourth ∷ []) with_client))
enter_all-reorders_example =
    enter_all-reorders (third ∷ fourth ∷ []) (fourth ∷ third ∷ []) with_client (swap refl refl)
      (((ids_differ, socks_differ), tt), (tt, tt))

stale_client_example :
    let e' =
      del_client_node 6
        (put_client (id_of 4) (node_of 4 6) 6 (put_client (id_of 3) (node_of 3 6) 6 with_client)) in
    (find (id_of 3) e'.client_node ≡ some (node_of 3 6)) × (find 6 e'.sock_id_pair ≡ none)
unfolding find
stale_client_example =
    stale_client (id_of 3) (id_of 4) (node_of 3 6) (node_of 4 6) 6 with_client ids_differ refl

lost_client_example :
    let e' =
      put_client (id_of 3) (node_of 3 7) 7 (put_client (id_of 3) (node_of 3 6) 6 with_client) in
    (find (id_of 3) e'.client_node ≡ some (node_of 3 6))
    × (find (id_of 3) (del_client_node 6 e').client_node ≡ none)
    × (find 7 (del_client_node 6 e').sock_id_pair ≡ some (id_of 3))
unfolding find
lost_client_example =
    lost_client (id_of 3) (node_of 3 6) (node_of 3 7) 6 7 with_client socks_differ refl
