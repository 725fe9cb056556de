-- ===== src/Engine/Message/Meets.antt =====
-- src/netengine.cpp: what becomes of the peers that a node is told to punch towards.
use ebc_node.Base.{
  true, false, ℕ, ◌≤◌, ◌≡◌, refl, ap, ◌∙◌, ◌⊎◌, inl, inr, none, some, List, [], ◌∷◌, arith, length,
  All,
}
use mathlib.Core.List.{append-nil}
use ebc_node.Wire.{Wire}
use ebc_node.Wire.Laws.{WireLaws}
use ebc_node.SockAddr.{SockAddr, endpoint}
use ebc_node.SockAddr.Fields.{endpoint_bytes}
use ebc_node.Utils.{par_nat, par_port}
use ebc_node.Node.{Node, NodeId, new_node, set_addr, set_nat, set_sock, string_to_node_id}
use ebc_node.Node.Id.{string_to_node_id_lem}
use ebc_node.Proto.Enums.{type_rep, type_punch, sub_node, sub_empty}
use ebc_node.Proto.Node.{EbcNode}
use ebc_node.Proto.Nodes.Bounds.{IsSmall}
use ebc_node.Proto.Msg.{serialize}
use ebc_node.MsgPack.{a_node, some_nodes}
use ebc_node.MsgPack.Described.{described}
use ebc_node.MsgPack.Bounds.{
  listing, listing-IsBody, described_nodes-le, node-IsPackable, described_node-le,
}
use ebc_node.Engine.{Engine, put_peer, add_peer_node, add_peer_node_id, announced_node}
use ebc_node.Engine.World.{◌>>=◌, ◌>>◌, update, Udt, World, Call, socket, close, epoll_add, recv}
use ebc_node.Engine.Punch.{start_punch, all_events}
use ebc_node.Engine.Punch.Sockets.{start_punch_settles}
use ebc_node.Engine.Message.{buffer_size, meet, meet_all, handle_msg}
use ebc_node.Engine.Message.Reads.{after_recv, handle_msg-meets, handle_msg-meets_all}

-- The peer that is entered for a node of a message.
abbrev pub new_peer : EbcNode → SockAddr → ℕ → Node
new_peer n addr sock = record (new_node n.id) {
  addr = addr;
  nat = par_nat n.port_nat;
  sock = some sock;
}

-- What `meet` has done towards one node: it gave the node up, where UDT gave no socket and nothing else was
-- called, or where the socket that UDT gave was closed last, just after a call that failed; or that socket
-- was put into the epoll set last, just after a call that did not fail, and the node was entered for it, at
-- the address of the message.
abbrev pub GaveUp : Udt → World → World → Type 0
GaveUp udt s s' =
    (s'.engine ≡ s.engine)
    × (((udt.a_socket (socket ∷ s.calls) ≡ none) × (s'.calls ≡ socket ∷ s.calls))
        ⊎ ((sock : ℕ) × (before : List Call) × (udt.a_socket (socket ∷ s.calls) ≡ some sock)
            × (udt.succeeds before ≡ false)
            × (s'.calls ≡ close sock ∷ before)))

abbrev pub Entered : Udt → EbcNode → World → World → Type 0
Entered udt n s s' =
    (sock : ℕ) × (before : List Call) × (memory : List ℕ) × (addr : SockAddr) × (udt.a_socket
        (socket ∷ s.calls)
      ≡ some sock)
    × (udt.succeeds before ≡ true)
    × (s'.calls ≡ epoll_add sock all_events ∷ before)
    × (endpoint memory (par_port n.port_nat) n.ip ≡ some addr)
    × (s'.engine ≡ put_peer n.id (new_peer n addr sock) sock s.engine)

abbrev pub Met : Udt → EbcNode → World → World → Type 0
Met udt n s s' = GaveUp udt s s' ⊎ Entered udt n s s'

-- Towards each node of a list in turn.
abbrev pub AllMet : Udt → List EbcNode → World → World → Type 0
AllMet udt [] s s' = s' ≡ s
AllMet udt (n ∷ ns) s s' = (t : World) × Met udt n s t × AllMet udt ns t s'

peer-put :
    (memory : List ℕ) (n : EbcNode) (sock : ℕ) (addr : SockAddr) (e : Engine)
    → length n.id ≡ 20
    → endpoint memory (par_port n.port_nat) n.ip ≡ some addr
    → add_peer_node memory n.id n.ip n.port_nat sock e
      ≡ some (put_peer n.id (new_peer n addr sock) sock e)
unfolding add_peer_node add_peer_node_id announced_node set_addr set_nat set_sock new_node
peer-put memory n sock addr e h made = rw (whole, made)
  where
    whole : string_to_node_id n.id ≡ some n.id
    whole = simp append-nil at (string_to_node_id_lem n.id [] h)

pub endpoint-made :
    (memory : List ℕ) (port ip : ℕ)
    → 16 ≤ length memory
    → (addr : SockAddr) × (endpoint memory port ip ≡ some addr)
endpoint-made memory port ip h = (_, endpoint_bytes memory port ip h)

meet-gives_up :
    (udt : Udt) (n : EbcNode) (s s' : World)
    → start_punch udt n.ip (par_port n.port_nat) s ≡ some (none, s')
    → meet udt n s ≡ some (tt, s')
unfolding meet
meet-gives_up udt n s s' run = rw (meet, ◌>>=◌, run)

meet-enters :
    (udt : Udt) (n : EbcNode) (s : World) (sock : ℕ) (s' : World) (addr : SockAddr)
    → length n.id ≡ 20
    → start_punch udt n.ip (par_port n.port_nat) s ≡ some (some sock, s')
    → endpoint (udt.memory s'.calls) (par_port n.port_nat) n.ip ≡ some addr
    → meet udt n s
      ≡ some (tt, record s' { engine = put_peer n.id (new_peer n addr sock) sock s'.engine })
unfolding meet
meet-enters udt n s sock s' addr h run made =
    rw (meet, ◌>>=◌, run, update, peer-put (udt.memory s'.calls) n sock addr s'.engine h made)

module _ (udt : Udt) (memory_fits : (calls : List Call) → 16 ≤ length (udt.memory calls)) where
  meet-Met :
      (n : EbcNode) (s : World)
      → length n.id ≡ 20
      → (s' : World) × (meet udt n s ≡ some (tt, s')) × Met udt n s s'
  meet-Met n s h =
      let (r, s', run, same, ends) = start_punch_settles udt n.ip (par_port n.port_nat) s in
      elim ends [
        | inl (refused, nothing, calls) ↦
            (s', meet-gives_up udt n s s' (run ∙ rw nothing refl), inl (same, inl (refused, calls)))
        | inr (sock, given, (before, inl (nothing, failed, closed))) ↦ (
          s',
          meet-gives_up udt n s s' (run ∙ rw nothing refl),
          inl (same, inr (sock, before, given, failed, closed)),
        )
        | inr (sock, given, (before, inr (there, done, added))) ↦
            let (addr, made) =
              endpoint-made (udt.memory s'.calls) (par_port n.port_nat) n.ip
                (memory_fits s'.calls) in
            (
              record s' { engine = put_peer n.id (new_peer n addr sock) sock s'.engine },
              meet-enters udt n s sock s' addr h (run ∙ rw there refl) made,
              inr (
                sock,
                before,
                udt.memory s'.calls,
                addr,
                given,
                done,
                added,
                made,
                ap (put_peer n.id (new_peer n addr sock) sock) same,
              ),
            )
      ]

  meet_all-AllMet :
      (ns : List EbcNode) (s : World)
      → All (λ n. length n.id ≡ 20) ns
      → (s' : World) × (meet_all udt ns s ≡ some (tt, s')) × AllMet udt ns s s'
  unfolding meet_all
  meet_all-AllMet [] s h = (s, refl, refl)
  meet_all-AllMet (n ∷ ns) s (h, hs) =
      let (t, first, met) = meet-Met n s h in
      let (u, others, all) = meet_all-AllMet ns t hs in
      (u, rw (meet_all, ◌>>◌, ◌>>=◌, first) others, (t, met, all))

-- A node that receives the list of a server of at most 137 nodes, with ids of 20 bytes, and that gets 16
-- bytes of memory whenever it asks: whatever UDT answers, `handleMsg` comes to an end with nothing
-- undefined, the printing by `msgPrint` left aside. After the read it turns to each node of the list, in
-- order. Where UDT gives no socket, nothing else is called for that node; where the latest call closes
-- the socket that UDT gave, the node is given up, and the call before that failed; and in both cases the engine is as it was. In every
-- other case the latest call puts the socket that UDT gave into the epoll set, and `addPeerNode` has been
-- done: the socket stands for the id of the node in the index, and the node, with that socket,
-- is a peer at the address that the list has for it, unless there was a peer of that id, which `insert`
-- keeps as it was.
pub handle_msg-AllMet :
    {w : Wire} (laws : WireLaws w) (udt : Udt) (sock : ℕ) (src dst : NodeId) (ns : List EbcNode)
    (s : World)
    → ((calls : List Call) → 16 ≤ length (udt.memory calls))
    → length src ≡ 20
    → length dst ≡ 20
    → All IsSmall ns
    → All (λ n. length n.id ≡ 20) ns
    → length ns ≤ 137
    → udt.received (recv sock buffer_size ∷ s.calls)
      ≡ some (serialize w (described w src type_rep (some_nodes (listing ns)) sub_node dst))
    → (s' : World) × (handle_msg w udt sock s ≡ some (tt, s'))
      × AllMet udt ns (after_recv sock s) s'
handle_msg-AllMet laws udt sock src dst ns s memory_fits src_size dst_size small ids few got =
    let (s', run, all) = meet_all-AllMet udt memory_fits ns (after_recv sock s) ids in
    (
      s',
      handle_msg-meets_all laws udt sock src dst (omega arith) (omega arith) (listing ns) s got
            (listing-IsBody laws ns small (omega arith))
            (omega (
              arith,
              described_nodes-le laws src dst (omega arith) (omega arith) ns small (omega arith),
            ))
          ∙ run,
      all,
    )

-- A node that receives the notice of a new client, with ids of 20 bytes, and that gets 16 bytes of memory
-- whenever it asks: whatever UDT answers, `handleMsg` comes to an end with nothing undefined, the
-- printing by `msgPrint` left aside, and the new client was given up or entered, at the address of the
-- notice.
pub handle_msg-Met :
    {w : Wire} (laws : WireLaws w) (udt : Udt) (sock : ℕ) (src dst : NodeId) (n : EbcNode)
    (s : World)
    → ((calls : List Call) → 16 ≤ length (udt.memory calls))
    → length src ≡ 20
    → length dst ≡ 20
    → IsSmall n
    → length n.id ≡ 20
    → udt.received (recv sock buffer_size ∷ s.calls)
      ≡ some (serialize w (described w src type_punch (a_node n) sub_empty dst))
    → (s' : World) × (handle_msg w udt sock s ≡ some (tt, s')) × Met udt n (after_recv sock s) s'
handle_msg-Met laws udt sock src dst n s memory_fits src_size dst_size small id_size got =
    let (s', run, met) = meet-Met udt memory_fits n (after_recv sock s) id_size in
    (
      s',
      handle_msg-meets laws udt sock src dst (omega arith) (omega arith) n s got
            (node-IsPackable laws type_punch sub_empty n (inr refl) small)
            (omega (
              arith,
              described_node-le laws src dst (omega arith) (omega arith) type_punch sub_empty n
                  (inr refl) small,
            ))
          ∙ run,
      met,
    )
