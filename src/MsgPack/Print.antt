-- ===== src/MsgPack/Print.antt =====
-- src/msgpack.cpp: `msgPrint`, which `unpack` calls on a message that it accepts.
use ebc_node.Base.{ℕ, Option, none, some, List, [], ◌∷◌, ◌++◌, ◌==◌, if◌then◌else◌, length}
use ebc_node.Console.{Out, say, raw, number, endl}
use ebc_node.Node.Print.{print_node_id_string}
use ebc_node.Proto.Enums.{
  type_empty, type_get_node, type_get_data, type_rep, type_punch, sub_empty, sub_node, sub_data,
}
use ebc_node.Proto.Node.{EbcNode}
use ebc_node.Proto.Msg.{EbcMsg, nodes, msg, has_nodes}

-- Output that may be undefined, one after the other.
infixr 5 ◌>+◌
abbrev pub ◌>+◌ : Option (List Out) → Option (List Out) → Option (List Out)
none >+ b = none
some a >+ none = none
some a >+ some b = some (a ++ b)

-- The two switches.
unfoldable pub print_type : ℕ → List Out
print_type type =
    if type == type_get_data
    then say "type :" ∷ say "GET_DATA" ∷ endl ∷ []
    else if type == type_get_node
    then say "type :" ∷ say "GET_NODE" ∷ endl ∷ []
    else if type == type_rep
    then say "type :" ∷ say "REP" ∷ endl ∷ []
    else if type == type_punch
    then say "type :" ∷ say "PUNCH" ∷ endl ∷ []
    else if type == type_empty
    then say "type :" ∷ say "EMPTY" ∷ endl ∷ []
    else []

unfoldable pub print_sub_type : ℕ → List Out
print_sub_type sub =
    if sub == sub_data
    then say "sub_type :" ∷ say "DATA" ∷ endl ∷ []
    else if sub == sub_node
    then say "sub_type :" ∷ say "NODE" ∷ endl ∷ []
    else if sub == sub_empty
    then say "sub_type :" ∷ say "EMPTY" ∷ endl ∷ []
    else []

-- The loop over the nodes.
unfoldable pub print_ebcnodes : List EbcNode → Option (List Out)
print_ebcnodes [] = some []
print_ebcnodes (n ∷ ns) =
    some (say "node id " ∷ [])
    >+ print_node_id_string n.id
    >+ some (say "node ip " ∷ number n.ip ∷ endl ∷ say "node port " ∷ number n.port_nat ∷ endl ∷ [])
    >+ print_ebcnodes ns

unfoldable pub print_body : EbcMsg → Option (List Out)
print_body m =
    if has_nodes m
    then print_ebcnodes (nodes m).ebcnodes
    else if length (msg m) == 0
    then some []
    else some (say "msg body: " ∷ raw (msg m) ∷ endl ∷ [])

-- `msgPrint`.
unfoldable pub msg_print : EbcMsg → Option (List Out)
msg_print m =
    some (say "version:" ∷ raw m.version ∷ endl ∷ say "src_id:" ∷ [])
    >+ print_node_id_string m.src_id
    >+ some (say "dst_id:" ∷ [])
    >+ print_node_id_string m.dst_id
    >+ some (
        print_type m.type
        ++ (print_sub_type m.sub_type ++ (say "length: " ∷ number m.length_ ∷ endl ∷ [])))
    >+ print_body m
