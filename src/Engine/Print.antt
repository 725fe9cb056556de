-- ===== src/Engine/Print.antt =====
-- src/netengine.cpp: `printNodesInfo`.
pub mod Defined
use ebc_node.Base.{
  ℕ, zero, suc, ◌+◌, ◌-◌, ◌*◌, ◌/◌, ◌%◌, ◌^◌, ◌≤◌, ◌<◌, ◌≡◌, refl, sym, ap, ◌∙◌, ◌≢◌, ◌↔◌, ◌⊎◌, inl,
  inr, Bool, true, false, not, ◌&&◌, ◌||◌, Option, none, some, List, [], ◌∷◌, ◌++◌, map, arith,
  dec_lt, ℕ_discrete, ltb, leb, ◌==◌, if◌then◌else◌, ltb→lt, ==_iff, Bool-cases, Option-cases,
  length, get_elem?, take, drop, replicate, All, length-append, length-take, length-drop,
  take-append, drop-append, take_all,
}
use ebc_node.Console.{Out, say, number, endl}
use ebc_node.SockAddr.Names.{NameInfo}
use ebc_node.Node.{Node, NodeId, get_id}
use ebc_node.Node.Print.{print_node_id, print_node}
use ebc_node.Engine.{Engine}

-- The two loops over a table.
unfoldable pub print_ids : List (NodeId × Node) → List Out
print_ids [] = []
print_ids ((id, node) ∷ rest) = print_node_id (get_id node) ++ print_ids rest

unfoldable pub print_nodes : NameInfo → List (NodeId × Node) → Option (List Out)
print_nodes names [] = some []
print_nodes names ((id, node) ∷ rest) = elim (print_node names node) [
  | none ↦ none
  | some shown ↦ elim (print_nodes names rest) [
    | none ↦ none
    | some others ↦ some (shown ++ others)
  ]
]

-- `printNodesInfo(type)`.
unfoldable pub print_clients : NameInfo → Engine → Option (List Out)
print_clients names e =
    if e.is_server
    then elim (print_nodes names e.client_node) [
      | none ↦ none
      | some shown ↦ some (say "SELF IS A SERVER" ∷ endl ∷ say "CLIENT INFO" ∷ endl ∷ shown)
    ]
    else some []

unfoldable pub print_nodes_info : NameInfo → ℕ → Engine → Option (List Out)
unfolding print_clients
print_nodes_info names type e =
    if type == 1
    then some (
        say "PEER INFO :"
        ∷ endl
        ∷ say "online count = "
        ∷ number (length e.peer_node)
        ∷ endl
        ∷ print_ids e.peer_node)
    else elim (print_nodes names e.peer_node) [
      | none ↦ none
      | some peers ↦ elim (print_clients names e) [
        | none ↦ none
        | some clients ↦ some (say "PEER INFO :" ∷ endl ∷ (peers ++ clients))
      ]
    ]
