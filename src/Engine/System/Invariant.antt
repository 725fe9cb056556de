-- ===== src/Engine/System/Invariant.antt =====
-- Invariants of the engine under every interleaving of its threads.
use ebc_node.Base.{◌≡◌, refl, Bool, List, []}
use ebc_node.Base.StdMap.{find}
use ebc_node.Base.StdMap.Ascending.{IsAscending, insert-IsAscending, erase-IsAscending}
use ebc_node.Node.IdOrder.{id_key-IsOrder}
use ebc_node.Node.{Node, NodeId, new_node, id_key, sock_key}
use ebc_node.Engine.{new_engine}
use ebc_node.Engine.Tables.{IsKeyed, insert-IsKeyed, erase-IsKeyed}
use ebc_node.Engine.Message.Keyed.{connected_node-id}
use ebc_node.Engine.World.{Udt, World}
use ebc_node.Engine.System.{Reach}
use ebc_node.Engine.System.Kept.{Reach-keeps}
use ebc_node.Engine.System.Clients.{OfClients, IsSound, IsSound-Closed}
use ebc_node.Engine.System.Peers.{ArePeers, ArePeers-Closed}
use ebc_node.Wire.{Wire}

-- The table of clients is keyed by the ids of its nodes, and in the order of a `std::map`.
abbrev IsMap : List (NodeId × Node) → Type 0
IsMap m = IsKeyed m × IsAscending m

IsMap-OfClients : OfClients IsMap
IsMap-OfClients = record {
  puts = λ memory nid addr nat sock node m size made (keyed, ascending). (
    insert-IsKeyed nid node m (connected_node-id memory nid addr nat sock node size made) keyed,
    insert-IsAscending id_key-IsOrder nid node m ascending,
  );
  erases = λ id m (keyed, ascending). (erase-IsKeyed id m keyed, erase-IsAscending id m ascending);
}

-- An engine that was just made, with no call of UDT yet.
abbrev pub first : Bool → Bool → NodeId → Bool → World
first boot_flag server_flag id is_server = record {
  engine = new_engine boot_flag server_flag id is_server;
  calls = [];
}

-- Whatever calls are made of an engine that was just made, whatever UDT answers and whatever order its
-- threads run in, as long as nothing undefined happens: the engine is the node that it was made as,
-- every client in its table stands under its own id, and the ids in the tables of clients and of peers
-- are in ascending order, each of them once.
pub Reach-IsSound :
    (w : Wire) (udt : Udt) (boot_flag server_flag : Bool) (id : NodeId) (is_server : Bool)
    (s : World)
    → Reach w udt (first boot_flag server_flag id is_server) s
    → (s.engine.self ≡ new_node id)
      × IsKeyed s.engine.client_node
      × IsAscending s.engine.client_node
      × IsAscending s.engine.peer_node
unfolding new_engine find
Reach-IsSound w udt boot_flag server_flag id is_server s r =
    let sound = IsSound-Closed IsMap IsMap-OfClients (new_node id) in
    let start : IsSound IsMap (new_node id) (new_engine boot_flag server_flag id is_server) =
      (refl, ((λ k n h. cc), tt)) in
    let (same, (keyed, ascending)) =
      Reach-keeps (IsSound IsMap (new_node id)) sound w udt r start in
    (same, keyed, ascending, Reach-keeps ArePeers ArePeers-Closed w udt r tt)
