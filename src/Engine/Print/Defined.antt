-- ===== src/Engine/Print/Defined.antt =====
-- src/netengine.cpp: `printNodesInfo` is defined where the addresses of the nodes are there.
use ebc_node.Base.{
  ℕ, ◌≤◌, ◌≡◌, refl, sym, inl, inr, true, Option, none, some, List, [], ◌∷◌, ◌++◌, arith, leb, ◌==◌,
  Bool-cases, length, take,
}
use mathlib.Core.Path.{subst}
use ebc_node.Console.{say, number, endl}
use ebc_node.SockAddr.{first_u16}
use ebc_node.SockAddr.Names.{NameInfo, print_addr, print_sockaddr, print_names}
use ebc_node.Node.{Node, NodeId, get_addr, get_id, get_state, get_nat_type}
use ebc_node.Node.Print.{print_node, print_node_id, print_node_state, print_nat_type}
use ebc_node.Engine.{Engine}
use ebc_node.Engine.Print.{print_nodes_info, print_ids, print_nodes, print_clients}

-- A node with an address of at least `sizeof(sockaddr)` bytes, and an engine of such nodes.
abbrev pub IsPrintable : Node → Type 0
IsPrintable node = (bytes : List ℕ) × (node.addr.addr ≡ some bytes) × (16 ≤ length bytes)

abbrev pub AllPrintable : List (NodeId × Node) → Type 0
AllPrintable [] = Unit {0}
AllPrintable ((id, node) ∷ rest) = IsPrintable node × AllPrintable rest

abbrev pub IsShown : Engine → Type 0
IsShown e = AllPrintable e.peer_node × AllPrintable e.client_node

abbrev pub IsDefined {ℓ} : {A : Type ℓ} → Option A → Type ℓ
IsDefined {A} o = (a : A) × (o ≡ some a)

print_names-IsDefined :
    (host : Option (List ℕ × List ℕ)) (bytes : List ℕ)
    → 16 ≤ length bytes
    → IsDefined (print_names host (first_u16 bytes))
unfolding first_u16
print_names-IsDefined none bytes h = (_, refl)
print_names-IsDefined (some (host, service)) [] h = absurd (omega arith)
print_names-IsDefined (some (host, service)) (a ∷ []) h = absurd (omega arith)
print_names-IsDefined (some (host, service)) (a ∷ b ∷ rest) h = (_, refl)

print_addr-IsDefined :
    (names : NameInfo) (len : ℕ) (bytes : List ℕ)
    → 16 ≤ length bytes
    → IsDefined (print_addr names (record { len = len; addr = some bytes }))
unfolding print_addr print_sockaddr
print_addr-IsDefined names len bytes h =
    let shown = print_names-IsDefined (names (take 16 bytes)) bytes h in
    let fits : leb 16 (length bytes) ≡ true = (ground arith) in (shown.0, rw (fits, shown.1))

print_node-IsDefined :
    (names : NameInfo) (node : Node) → IsPrintable node → IsDefined (print_node names node)
unfolding print_node get_addr
print_node-IsDefined names node (bytes, e, h) =
    let shown = print_addr-IsDefined names node.addr.len bytes h in
    let same : print_addr names node.addr ≡ some shown.0 =
      (subst (λ b. print_addr names (record { len = node.addr.len; addr = b }) ≡ some shown.0)
        (sym e) shown.1) in
    (
      print_node_id (get_id node)
          ++ (shown.0 ++ (print_node_state (get_state node) ++ print_nat_type (get_nat_type node))),
      rw (print_node, same),
    )

print_nodes-IsDefined :
    (names : NameInfo) (nodes : List (NodeId × Node))
    → AllPrintable nodes
    → IsDefined (print_nodes names nodes)
unfolding print_nodes
print_nodes-IsDefined names [] h = (_, refl)
print_nodes-IsDefined names ((id, node) ∷ rest) (h, hs) =
    let first = print_node-IsDefined names node h in
    let others = print_nodes-IsDefined names rest hs in
    (first.0 ++ others.0, rw (print_nodes, first.1, others.1))

print_clients-IsDefined :
    (names : NameInfo) (e : Engine) → AllPrintable e.client_node → IsDefined (print_clients names e)
unfolding print_clients
print_clients-IsDefined names e h =
    let shown = print_nodes-IsDefined names e.client_node h in
    elim (Bool-cases e.is_server) [
      | inl s ↦
          (say "SELF IS A SERVER" ∷ endl ∷ say "CLIENT INFO" ∷ endl ∷ shown.0, rw (s, shown.1))
      | inr s ↦ ([], rw s)
    ]

pub print_nodes_info-IsDefined :
    (names : NameInfo) (type : ℕ) (e : Engine)
    → IsShown e
    → IsDefined (print_nodes_info names type e)
unfolding print_nodes_info
print_nodes_info-IsDefined names type e h =
    let peers = print_nodes-IsDefined names e.peer_node h.0 in
    let clients = print_clients-IsDefined names e h.1 in
    elim (Bool-cases (type == 1)) [
      | inl t ↦ (
        say "PEER INFO :"
            ∷ endl
            ∷ say "online count = "
            ∷ number (length e.peer_node)
            ∷ endl
            ∷ print_ids e.peer_node,
        rw t,
      )
      | inr t ↦ (say "PEER INFO :" ∷ endl ∷ (peers.0 ++ clients.0), rw (t, peers.1, clients.1))
    ]
