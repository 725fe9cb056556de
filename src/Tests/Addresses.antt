-- ===== src/Tests/Addresses.antt =====
-- Witnesses for ports, addresses and ids.
use ebc_node.Base.{ℕ, ◌≡◌, refl, some, List, [], ◌∷◌, arith, take, drop, replicate}
use ebc_node.Utils.{com_port_nat, par_nat}
use ebc_node.Utils.Ports.{par_nat-com_port_nat}
use ebc_node.SockAddr.{SockAddr, endpoint, get_port, ntohs, equals, memcmp_eq, set}
use ebc_node.SockAddr.Fields.{IsSockAddr, Holds, endpoint_bytes, endpoint-Holds, endpoint-equals}
use ebc_node.SockAddr.{no_addr}
use ebc_node.SockAddr.Uses.{Use, makes, sets_port, sets_family, assigns}
use ebc_node.Node.{Node, zero_id, string_to_node_id, node_id_to_string, default_node}
use ebc_node.Node.Id.{string_to_node_id-node_id_to_string}

par_nat-com_port_nat_example : par_nat (com_port_nat 9088 3) ≡ 0
par_nat-com_port_nat_example = par_nat-com_port_nat 9088 3 (omega arith) (omega arith)

abbrev memory : List ℕ
memory = replicate 16 171

abbrev other_memory : List ℕ
other_memory = replicate 16 172

endpoint-Holds_example :
    (a : SockAddr) × (endpoint memory 9088 16777343 ≡ some a)
    × Holds 9088 16777343 a
    × (get_port a ≡ some (ntohs 9088))
endpoint-Holds_example =
    endpoint-Holds memory 9088 16777343 (omega arith) (omega arith) (omega arith)

abbrev made : List ℕ → SockAddr
made fresh = record {
  len = 16;
  addr = some (2 ∷ 0 ∷ 128 ∷ 35 ∷ 127 ∷ 0 ∷ 0 ∷ 1 ∷ take 8 (drop 8 fresh));
}

made-IsSockAddr : IsSockAddr (made memory)
made-IsSockAddr = (omega arith, refl)

made-endpoint : endpoint memory 9088 16777343 ≡ some (made memory)
made-endpoint = endpoint_bytes memory 9088 16777343 (omega arith)

other-endpoint : endpoint other_memory 9088 16777343 ≡ some (made other_memory)
other-endpoint = endpoint_bytes other_memory 9088 16777343 (omega arith)

endpoint-equals_example :
    equals (made memory) (made other_memory)
    ≡ memcmp_eq (take 8 (drop 8 memory)) (take 8 (drop 8 other_memory))
endpoint-equals_example =
    endpoint-equals memory other_memory 9088 16777343 (made memory) (made other_memory)
      (omega arith) (omega arith) made-endpoint other-endpoint

abbrev short : ℕ → SockAddr
short b = record { len = 2; addr = some (2 ∷ b ∷ []) }

abbrev one_node : Node
one_node = record (default_node (short 1)) { nat = 2 }

abbrev two_node : Node
two_node = record (default_node (short 2)) { id = 5 ∷ [] }

abbrev an_id : List ℕ
an_id = replicate 20 17

string_to_node_id-node_id_to_string_example :
    string_to_node_id (node_id_to_string an_id) ≡ some zero_id
string_to_node_id-node_id_to_string_example = string_to_node_id-node_id_to_string an_id

cut-short : set (some (2 ∷ 7 ∷ 9 ∷ [])) 2 (made memory) ≡ some (short 7)
unfolding set
cut-short = refl

-- An address that becomes an IPv6 one, then empty, and that `setIPv4` is called of.
abbrev some_uses : List Use
some_uses = makes memory ∷ sets_port 9088 ∷ sets_family 10 ∷ assigns no_addr ∷ []
