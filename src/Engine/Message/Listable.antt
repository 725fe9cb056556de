-- ===== src/Engine/Message/Listable.antt =====
-- src/netengine.cpp: the clients of a server as its replies list them, and how `addClientNode` makes such
-- clients.
use ebc_node.Base.{ℕ, ◌≡◌, refl, ap, some, List, [], ◌∷◌, Bool-cases, inl, inr, arith, length, All}
use mathlib.Core.Path.{subst}
use mathlib.Core.List.{Memᴰ}
use mathlib.Core.List.Memᴰ.{head, tail}
use ebc_node.Base.StdMap.{find}
use ebc_node.SockAddr.{endpoint, >>=-eq-some}
use ebc_node.SockAddr.Lies.{Lies, endpoint-Lies}
use ebc_node.Utils.{com_port_nat}
use ebc_node.Utils.Ports.{com_port_nat-lt}
use ebc_node.Node.{Node, NodeId, new_node, set_addr, set_nat, set_sock, set_state, ids_eq, id_key}
use ebc_node.Proto.Node.{EbcNode}
use ebc_node.Proto.Nodes.Bounds.{IsSmall}
use ebc_node.Engine.{SockIn, connected_node}
use ebc_node.Engine.Message.{listed}
use ebc_node.Engine.Message.Keyed.{connected_node-id}
use ebc_node.Engine.Message.Requests.{Told}

-- A node with an id of 20 bytes, a socket, and a port and an address that are there.
pub record IsListable (n : Node) : Type 0 where
  pub on : ℕ
  pub id_size : length n.id ≡ 20
  pub has_sock : n.sock ≡ some on
  pub lies : Lies n.addr

pub connected_node-IsListable :
    (memory : List ℕ) (nid : NodeId) (addr : SockIn) (nat sock : ℕ) (node : Node)
    → length nid ≡ 20
    → connected_node memory nid addr nat sock ≡ some node
    → IsListable node
unfolding connected_node set_addr set_nat set_sock set_state new_node
connected_node-IsListable memory nid addr nat sock node h e =
    let (a, made, same) = >>=-eq-some (endpoint memory addr.sin_port addr.sin_addr) _ e in
    let laid = endpoint-Lies memory addr.sin_port addr.sin_addr a made in
    record {
      on = sock;
      id_size = omega (arith, ap length (connected_node-id memory nid addr nat sock node h e));
      has_sock = cc;
      lies = subst Lies (cc) laid;
    }

-- What such a node is listed as, with fields within their widths.
abbrev pub entry_of : (node : Node) → IsListable node → EbcNode
entry_of node l = record {
  id = node.id;
  ip = l.lies.ip;
  port_nat = com_port_nat l.lies.port node.nat;
  unknown = [];
}

entry_of-IsSmall : (node : Node) (l : IsListable node) → IsSmall (entry_of node l)
entry_of-IsSmall node l = (
  (
    record {
      id_fits = omega (arith, l.id_size);
      ip_fits = l.lies.ip_fits;
      port_nat_fits = com_port_nat-lt l.lies.port node.nat l.lies.port_fits;
    },
    refl,
  ),
  omega (arith, l.id_size),
)

listed-entry_of : (node : Node) (l : IsListable node) → listed node ≡ some (entry_of node l)
unfolding listed
listed-entry_of node l = rw (l.lies.has_ip, l.lies.has_port, listed) refl

-- The entries and the sockets of the clients of a table.
abbrev pub AllListable : List (NodeId × Node) → Type 0
AllListable = All (λ (c : NodeId × Node). IsListable (c.1))

abbrev pub entries : (clients : List (NodeId × Node)) → AllListable clients → List EbcNode
entries [] h = []
entries ((id, node) ∷ clients) (l, h) = entry_of node l ∷ entries clients h

abbrev pub socks : (clients : List (NodeId × Node)) → AllListable clients → List ℕ
socks [] h = []
socks ((id, node) ∷ clients) (l, h) = l.on ∷ socks clients h

pub entries-Told :
    (clients : List (NodeId × Node)) (h : AllListable clients)
    → Told clients (entries clients h) (socks clients h)
entries-Told [] h = tt
entries-Told ((id, node) ∷ clients) (l, h) =
    (listed-entry_of node l, l.has_sock, entries-Told clients h)

pub entries-IsSmall :
    (clients : List (NodeId × Node)) (h : AllListable clients) → All IsSmall (entries clients h)
entries-IsSmall [] h = tt
entries-IsSmall ((id, node) ∷ clients) (l, h) = (entry_of-IsSmall node l, entries-IsSmall clients h)

pub length-entries :
    (clients : List (NodeId × Node)) (h : AllListable clients)
    → length (entries clients h) ≡ length clients
length-entries [] h = refl
length-entries ((id, node) ∷ clients) (l, h) = omega (arith, length-entries clients h)

pub entries-id_size :
    (clients : List (NodeId × Node)) (h : AllListable clients)
    → All (λ (n : EbcNode). length n.id ≡ 20) (entries clients h)
entries-id_size [] h = tt
entries-id_size ((id, node) ∷ clients) (l, h) = (l.id_size, entries-id_size clients h)

-- A client that is in the table on a socket can be reached on it.
pub find-socks :
    (clients : List (NodeId × Node)) (h : AllListable clients) (k : NodeId) (node : Node) (s : ℕ)
    → find k clients ≡ some node
    → node.sock ≡ some s
    → Memᴰ s (socks clients h)
unfolding find
find-socks [] h k node s has on = cc
find-socks ((j, n) ∷ clients) (l, h) k node s has on = elim (Bool-cases (ids_eq k j)) [
  | inl same ↦
      (let here : n ≡ node = ground (arith, has, same) in
        head (ground (arith, ap (λ (m : Node). m.sock) here, l.has_sock, on)))
  | inr other ↦ tail (find-socks clients h k node s (ground (arith, has, other)) on)
]
