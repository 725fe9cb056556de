-- ===== src/Engine/System/Serves.antt =====
-- src/netengine.cpp: a server answers in every state that its threads can bring it into.
use ebc_node.Base.{ℕ, ◌^◌, ◌<◌, ◌≤◌, ◌≡◌, ap, refl, arith, true, some, Bool, ◌∷◌, length, List}
use ebc_node.Base.StdMap.{insert-All, erase-All}
use ebc_node.Node.{Node, NodeId, new_node, id_key}
use ebc_node.Engine.{new_engine}
use ebc_node.SockAddr.{SockAddr, endpoint}
use ebc_node.Proto.Node.{EbcNode}
use ebc_node.Proto.Msg.{serialize}
use ebc_node.Proto.Nodes.Bounds.{IsSmall}
use ebc_node.Engine.Message.{handle_msg, buffer_size}
use ebc_node.Engine.Message.Introduction.{seen, told_calls}
use ebc_node.Engine.Message.Reads.{after_recv}
use ebc_node.Engine.Message.Announce.{CanServe, request_msg, announced, handle_msg-announces}
use ebc_node.Engine.Message.Listable.{
  AllListable, connected_node-IsListable, entries, socks, entries-Told, entries-IsSmall,
  length-entries,
}
use ebc_node.Engine.World.{Udt, World, Call, recv, getpeername}
use ebc_node.Engine.Message.Requests.{Told}
use ebc_node.Engine.System.{Reach}
use ebc_node.Engine.System.Clients.{OfClients, IsSound, IsSound-Closed}
use ebc_node.Engine.System.Kept.{Reach-keeps}
use ebc_node.Engine.System.Invariant.{first}
use ebc_node.Wire.{Wire}
use ebc_node.Wire.Laws.{WireLaws}

AllListable-OfClients : OfClients AllListable
AllListable-OfClients = record {
  puts = λ memory nid addr nat sock node m size made old.
      insert-All _ nid node m (connected_node-IsListable memory nid addr nat sock node size made)
        old;
  erases = erase-All _;
}

pub Reach-AllListable :
    (w : Wire) (udt : Udt) (boot_flag server_flag : Bool) (id : NodeId) (is_server : Bool)
    (s : World)
    → Reach w udt (first boot_flag server_flag id is_server) s
    → IsSound AllListable (new_node id) s.engine
unfolding new_engine
Reach-AllListable w udt boot_flag server_flag id is_server s r =
    Reach-keeps (IsSound AllListable (new_node id))
      (IsSound-Closed AllListable AllListable-OfClients (new_node id)) w udt r (refl, tt)

pub self_id-length :
    (self : Node) (id : NodeId) → self ≡ new_node id → length id ≡ 20 → length self.id ≡ 20
unfolding new_node
self_id-length self id same h =
    let size : length (new_node id).id ≡ 20 = ground (arith, h) in
    omega (arith, ap (λ (n : Node). length n.id) same, size)

-- A server with listable clients has what it takes to answer a request.
pub AllListable-CanServe :
    (w : Wire) (udt : Udt) (s : World) (sock : ℕ) (request : EbcNode) (src : NodeId)
    (all : AllListable s.engine.client_node)
    → length s.engine.self.id ≡ 20
    → length src ≡ 20
    → ((calls : List Call) → 16 ≤ length (udt.memory calls))
    → ((calls : List Call)
        → ((udt.a_name calls).sin_addr < 2 ^ 32) × ((udt.a_name calls).sin_port < 2 ^ 16))
    → s.engine.is_server ≡ true
    → CanServe w udt sock s request src
        (entries s.engine.client_node all)
        (socks s.engine.client_node all)
AllListable-CanServe w udt s sock request src all self_size src_size gives_memory names serves =
    let clients = s.engine.client_node in
    let fits = names (getpeername sock ∷ s.calls) in
    record {
      serves = serves;
      self_size = self_size;
      src_size = src_size;
      told = entries-Told clients all;
      small = entries-IsSmall clients all;
      ip_fits = fits.0;
      port_fits = fits.1;
      memory_fits = gives_memory (told_calls w udt sock s request src (socks clients all));
    }

-- In every state that an engine with an id of 20 bytes can come into, whatever calls are made of it,
-- whatever UDT answers and whatever order its threads run in: if it is a server then, with at most 137
-- clients, and receives the request of a client, with ids of 20 bytes at most and 20 bytes for the
-- sender's, `handleMsg` comes to its end, the printing by `msgPrint` left aside. Every client in its
-- table has an entry and a socket to be reached on; each is sent the notice of the new client, in order;
-- the new client is put into the tables with the address that it is seen at; and it is answered with the
-- list of the others. UDT is taken to report addresses of 32 and ports of 16 bits, and `malloc` to give
-- 16 bytes.
pub Reach-serves :
    {w : Wire} (laws : WireLaws w) (udt : Udt) (boot_flag server_flag : Bool) (id : NodeId)
    (is_server : Bool) (s : World) (sock : ℕ) (request : EbcNode) (src : NodeId)
    → Reach w udt (first boot_flag server_flag id is_server) s
    → length id ≡ 20
    → length src ≡ 20
    → IsSmall request
    → ((calls : List Call) → 16 ≤ length (udt.memory calls))
    → ((calls : List Call)
        → ((udt.a_name calls).sin_addr < 2 ^ 32) × ((udt.a_name calls).sin_port < 2 ^ 16))
    → s.engine.is_server ≡ true
    → length s.engine.client_node ≤ 137
    → udt.received (recv sock buffer_size ∷ s.calls)
      ≡ some (serialize w (request_msg w src request))
    → (ns : List EbcNode) × (ss : List ℕ) × (addr : SockAddr) × Told s.engine.client_node ns ss
      × (endpoint
            (udt.memory (told_calls w udt sock (after_recv sock s) request src ss))
            (seen udt sock (after_recv sock s)).sin_port
            (seen udt sock (after_recv sock s)).sin_addr
          ≡ some addr)
      × (handle_msg w udt sock s
          ≡ some (tt, announced w udt sock request src ns ss (after_recv sock s) addr))
Reach-serves {w} laws udt boot_flag server_flag id is_server s sock request src r id_size src_size
      small gives_memory names serves few got =
    let (same, all) = Reach-AllListable w udt boot_flag server_flag id is_server s r in
    let clients = s.engine.client_node in
    let can =
      AllListable-CanServe w udt (after_recv sock s) sock request src all
        (self_id-length s.engine.self id same id_size) src_size gives_memory names serves in
    let (addr, made, done) =
      handle_msg-announces laws udt sock request src (entries clients all) (socks clients all) s got
        small can (omega (arith, few, length-entries clients all)) in
    (entries clients all, socks clients all, addr, can.told, made, done)
