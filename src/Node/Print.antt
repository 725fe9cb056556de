-- ===== src/Node/Print.antt =====
-- src/node.cpp: what is printed of a node.
use ebc_node.Base.{
  ℕ, ◌+◌, ◌-◌, ◌/◌, ◌%◌, Option, none, some, List, [], ◌∷◌, ◌++◌, ltb, ◌==◌, if◌then◌else◌,
}
use ebc_node.Console.{Out, say, raw, endl}
use ebc_node.SockAddr.Names.{NameInfo, print_addr}
use ebc_node.Node.{
  Node, NodeId, NodeState, stable, connected, paunch, disconnected, string_to_node_id, get_id,
  get_addr, get_state, get_nat_type,
}

-- `printNodeId`: `printf("%02x", i)` for each byte, and a newline.
unfoldable pub hex_digit : ℕ → ℕ
hex_digit d = if ltb d 10 then b'0' + d else b'a' + (d - 10)

unfoldable pub print_bytes : NodeId → List ℕ
print_bytes [] = 10 ∷ []
print_bytes (b ∷ bs) = hex_digit (b / 16) ∷ hex_digit (b % 16) ∷ print_bytes bs

unfoldable pub print_node_id : NodeId → List Out
print_node_id id = raw (print_bytes id) ∷ []

-- `printNodeId` of a string: `String2NodeId` reads 20 bytes of it.
unfoldable pub print_node_id_string : List ℕ → Option (List Out)
print_node_id_string s = elim (string_to_node_id s) [
  | none ↦ none
  | some id ↦ some (print_node_id id)
]

-- `printNodeState` and `printNatType`; their default cases print nothing.
unfoldable pub print_node_state : NodeState → List Out
print_node_state connected = say "connected" ∷ endl ∷ []
print_node_state paunch = say "PAUNCH" ∷ endl ∷ []
print_node_state disconnected = say "DISCONNECTED" ∷ endl ∷ []
print_node_state stable = []

unfoldable pub print_nat_type : ℕ → List Out
print_nat_type nat =
    if nat == 0
    then say "FULL CLONE" ∷ endl ∷ []
    else if nat == 1
    then say "RESTRICT" ∷ endl ∷ []
    else if nat == 2
    then say "PORT_RESTRICT" ∷ endl ∷ []
    else if nat == 3
    then say "SYMMTRIC" ∷ endl ∷ []
    else []

-- `printNode`.
unfoldable pub print_node : NameInfo → Node → Option (List Out)
print_node names n = elim (print_addr names (get_addr n)) [
  | none ↦ none
  | some addr ↦ some (
      print_node_id (get_id n)
      ++ (addr ++ (print_node_state (get_state n) ++ print_nat_type (get_nat_type n))))
]
