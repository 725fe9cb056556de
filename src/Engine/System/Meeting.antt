-- ===== src/Engine/System/Meeting.antt =====
-- src/netengine.cpp: a node joins: what the new node, its server and a node that is there already do with
-- what the others send.
use ebc_node.Base.{
  ℕ, ◌^◌, ◌<◌, ◌≤◌, ◌≡◌, ◌≢◌, ◌∙◌, refl, true, some, Bool, List, ◌∷◌, arith, length,
}
use ebc_node.Base.StdMap.{find}
use ebc_node.Wire.{Wire}
use ebc_node.Wire.Laws.{WireLaws}
use ebc_node.Utils.{par_port}
use ebc_node.Utils.Ports.{par_port-com_port_nat}
use ebc_node.Node.{Node, NodeId, zero_id, id_key}
use ebc_node.Proto.Node.{EbcNode}
use ebc_node.Proto.Msg.{serialize}
use ebc_node.Engine.World.{Udt, World, Call, recv}
use ebc_node.Engine.Message.{buffer_size, handle_msg}
use ebc_node.Engine.Message.Introduction.{seen, entry, notice_msg, reply_msg, told_calls}
use ebc_node.Engine.Message.Requests.{Told}
use ebc_node.Engine.Message.Reads.{after_recv}
use ebc_node.Engine.Message.Announce.{request_msg, entry-IsSmall, handle_msg-announces}
use ebc_node.Engine.Message.Meets.{Met, AllMet, handle_msg-Met, handle_msg-AllMet}
use ebc_node.Engine.Message.Delivery.{
  sent_by, sent_by-run, last_sent-here, last_sent-other, last_sent-sends,
}
use ebc_node.Engine.Message.Listable.{entries, socks, length-entries, entries-id_size, find-socks}
use ebc_node.Engine.Client.{self_node, send_get_node}
use ebc_node.Engine.Client.Request.{send_get_node-sends, self_node-IsSmall}
use ebc_node.Engine.System.{Reach}
use ebc_node.Engine.System.Invariant.{first}
use ebc_node.Engine.System.Serves.{Reach-AllListable, self_id-length, AllListable-CanServe}

-- A new node asks a server for nodes: whatever state the server came into, as a server of at most 137
-- clients with an id of 20 bytes, and whatever the new node and a client of the server do meanwhile. If
-- the server receives what the new node sent, and then the new node what the server sent back to it,
-- and the client, on another socket, what the server sent there: both of them come to the end of
-- `handleMsg`, and nothing is undefined, the printing by `msgPrint` left aside. After its read the new
-- node turns to every client in the table of the server, in that order, with the id, the address and the
-- port that the table has for it; and the client, after its read, turns to the new node, with its id and
-- the address and the port at which the server sees it. To turn to a node: where UDT gives no socket,
-- nothing else is called; where the latest call closes the socket that UDT gave, the node is given
-- up, and the call before that failed; and in both cases the engine is as it was. In every other case the latest call puts the socket that
-- UDT gave into the epoll set and the node was entered by `addPeerNode`: the index has its id for that
-- socket, and the node is a peer at that address, unless there was a peer of that id, which `insert`
-- keeps. UDT is taken to report addresses of 32 and ports of 16 bits, and `malloc` to give 16 bytes.
pub Reach-introduces :
    {w : Wire} (laws : WireLaws w) (new_udt server_udt client_udt : Udt)
    (boot_flag server_flag : Bool) (id : NodeId) (is_server : Bool) (s : World) (sock : ℕ)
    (b b' : World) (up : ℕ) (c : World) (down : ℕ) (key : NodeId) (node : Node) (on : ℕ)
    → Reach w server_udt (first boot_flag server_flag id is_server) s
    → length id ≡ 20
    → s.engine.is_server ≡ true
    → length s.engine.client_node ≤ 137
    → length b.engine.self.id ≡ 20
    → ((calls : List Call) → 16 ≤ length (new_udt.memory calls))
    → ((calls : List Call) → 16 ≤ length (server_udt.memory calls))
    → ((calls : List Call) → 16 ≤ length (client_udt.memory calls))
    → ((calls : List Call)
        → ((server_udt.a_name calls).sin_addr < 2 ^ 32)
          × ((server_udt.a_name calls).sin_port < 2 ^ 16))
    → find key s.engine.client_node ≡ some node
    → node.sock ≡ some on
    → sock ≢ on
    → server_udt.received (recv sock buffer_size ∷ s.calls) ≡ sent_by up (send_get_node w up) b
    → new_udt.received (recv up buffer_size ∷ b'.calls)
      ≡ sent_by sock (handle_msg w server_udt sock) s
    → client_udt.received (recv down buffer_size ∷ c.calls)
      ≡ sent_by on (handle_msg w server_udt sock) s
    → ((ns : List EbcNode) × (ss : List ℕ) × (b'' : World) × (handle_msg w new_udt up b'
          ≡ some (tt, b''))
        × Told s.engine.client_node ns ss
        × AllMet new_udt ns (after_recv up b') b'')
      × ((n : EbcNode) × (c' : World) × (handle_msg w client_udt down c ≡ some (tt, c'))
          × (n.id ≡ b.engine.self.id)
          × (n.ip ≡ (seen server_udt sock (after_recv sock s)).sin_addr)
          × (par_port n.port_nat ≡ (seen server_udt sock (after_recv sock s)).sin_port)
          × Met client_udt n (after_recv down c) c')
Reach-introduces {w} laws new_udt server_udt client_udt boot_flag server_flag id is_server s sock b
      b' up c down key node on r id_size serves few new_size new_memory server_memory client_memory
      names has on_sock apart got_request got_reply got_notice =
    let (same, all) = Reach-AllListable w server_udt boot_flag server_flag id is_server s r in
    let self_size = self_id-length s.engine.self id same id_size in
    let clients = s.engine.client_node in
    let src = b.engine.self.id in
    let request = self_node b.engine.self in
    let ns = entries clients all in
    let ss = socks clients all in
    let t = after_recv sock s in
    let asked = sent_by-run up (send_get_node w up) b _ (send_get_node-sends laws up b new_size) in
    let arrives =
      got_request ∙ (asked ∙ last_sent-here up (serialize w (request_msg w src request)) b.calls) in
    let can =
      AllListable-CanServe w server_udt t sock request src all self_size new_size server_memory
        names serves in
    let few_entries : length ns ≤ 137 = omega (arith, few, length-entries clients all) in
    let (addr, made, done) =
      handle_msg-announces laws server_udt sock request src ns ss s arrives (self_node-IsSmall b)
        can few_entries in
    let answers = sent_by-run on (handle_msg w server_udt sock) s _ done in
    let replies = sent_by-run sock (handle_msg w server_udt sock) s _ done in
    let calls = told_calls w server_udt sock t request src ss in
    let reply = serialize w (reply_msg w s.engine.self.id ns) in
    let n = entry server_udt sock t request src in
    let (b'', ends, met_all) =
      handle_msg-AllMet laws new_udt up s.engine.self.id zero_id ns b' new_memory self_size refl
        can.small (entries-id_size clients all) few_entries
        (got_reply ∙ (replies ∙ last_sent-here sock reply calls)) in
    let (c', ends', met) =
      handle_msg-Met laws client_udt down s.engine.self.id zero_id n c client_memory self_size refl
        (entry-IsSmall laws server_udt sock request src ns ss t can) new_size
        (got_notice
          ∙ (answers
              ∙ (last_sent-other on sock reply calls apart
                  ∙ last_sent-sends on (serialize w (notice_msg w s.engine.self.id n)) ss _
                      (find-socks clients all key node on has on_sock)))) in
    (
      (ns, ss, b'', ends, can.told, met_all),
      (n, c', ends', refl, refl, par_port-com_port_nat _ _ can.port_fits, met),
    )
