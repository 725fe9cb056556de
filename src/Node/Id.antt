-- ===== src/Node/Id.antt =====
-- Ids as strings, and as they are printed.
use ebc_node.Base.{
  ℕ, ◌/◌, ◌%◌, ◌<◌, ◌≡◌, refl, true, none, some, List, [], ◌∷◌, ◌++◌, arith, leb, length, take, All,
  length-append, take-append,
}
use mathlib.Core.Path.{subst}
use mathlib.Core.List.{append_assoc}
use ebc_node.Utils.{id_length}
use ebc_node.SockAddr.Fields.{IsSockAddr, assign-eq}
use ebc_node.Node.{Node, NodeId, zero_id, assign_node, node_id_to_string, string_to_node_id}
use ebc_node.Node.Print.{hex_digit, print_bytes}

-- `operator=` makes the left side equal to the right one, for nodes with well-formed addresses.
pub assign_node-eq : (n o : Node) → IsSockAddr n.addr → IsSockAddr o.addr → assign_node n o ≡ some o
unfolding assign_node
assign_node-eq n o vn vo = rw (assign-eq n.addr o.addr vn vo, assign_node)

-- A string that starts with the 20 bytes of an id gives that id.
pub string_to_node_id_lem :
    (id rest : List ℕ) → length id ≡ id_length → string_to_node_id (id ++ rest) ≡ some id
unfolding string_to_node_id
string_to_node_id_lem id rest h = rw (append_assoc, long, string_to_node_id, front)
  where
    behind : List ℕ
    behind = rest ++ (0 ∷ [])

    long : leb 20 (length (id ++ behind)) ≡ true
    long = ground (arith, length-append id behind)

    front : take 20 (id ++ behind) ≡ id
    front = subst (λ n. take n (id ++ behind) ≡ id) h (take-append id behind)

-- Whatever the id was, its string converts back to 20 zero bytes.
pub string_to_node_id-node_id_to_string :
    (id : NodeId) → string_to_node_id (node_id_to_string id) ≡ some zero_id
unfolding node_id_to_string
string_to_node_id-node_id_to_string id = string_to_node_id_lem zero_id id refl

-- A string shorter than 19 bytes is read out of bounds.
pub string_to_node_id_short : (s : List ℕ) → length s < 19 → string_to_node_id s ≡ none
unfolding string_to_node_id
string_to_node_id_short s h = ground (arith, length-append s (0 ∷ []))

hex_digit_injective : (a b : ℕ) → a < 16 → b < 16 → hex_digit a ≡ hex_digit b → a ≡ b
unfolding hex_digit
hex_digit_injective a b ha hb e = ground arith

-- Two ids of bytes, of the same length, that are printed alike are the same.
pub print_bytes_injective :
    (a b : NodeId)
    → All (λ x. x < 256) a
    → All (λ x. x < 256) b
    → length a ≡ length b
    → print_bytes a ≡ print_bytes b
    → a ≡ b
unfolding print_bytes
print_bytes_injective [] [] va vb h e = refl
print_bytes_injective [] (y ∷ ys) va vb h e = absurd (omega arith)
print_bytes_injective (x ∷ xs) [] va vb h e = absurd (omega arith)
print_bytes_injective (x ∷ xs) (y ∷ ys) va vb h e = ground (
  arith,
  hex_digit_injective (x / 16) (y / 16),
  hex_digit_injective (x % 16) (y % 16),
  print_bytes_injective xs ys va.1 vb.1,
)
