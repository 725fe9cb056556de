-- ===== src/MsgPack/Printing.antt =====
-- src/msgpack.cpp: where `msgPrint` reads behind the end of a string.
use ebc_node.Base.{
  ℕ, ◌≤◌, ◌≡◌, refl, ◌↔◌, inl, inr, Option-cases, Option, none, some, List, [], ◌∷◌, ◌++◌, arith,
  length, length-append, All,
}
use ebc_node.Console.{Out, say, raw, number, endl}
use ebc_node.Node.{string_to_node_id}
use ebc_node.Node.Print.{print_node_id_string}
use ebc_node.Proto.Node.{EbcNode}
use ebc_node.Proto.Msg.{EbcMsg, Body, body_not_set, msg_body, nodes_body, nodes}
use ebc_node.Wire.{Wire}
use ebc_node.MsgPack.{a_node}
use ebc_node.MsgPack.Described.{described}
use ebc_node.MsgPack.Print.{◌>+◌, print_type, print_sub_type, print_ebcnodes, print_body, msg_print}

-- Output that is defined.
abbrev pub IsPrinted : Option (List Out) → Type 0
IsPrinted o = (out : List Out) × (o ≡ some out)

both : (a b : Option (List Out)) → IsPrinted a → IsPrinted b → IsPrinted (a >+ b)
both none b (x, e) (y, e') = absurd cc
both (some a) none (x, e) (y, e') = absurd cc
both (some a) (some b) p q = (_, refl)

parts : (a b : Option (List Out)) → IsPrinted (a >+ b) → IsPrinted a × IsPrinted b
parts none b (x, e) = absurd cc
parts (some a) none (x, e) = absurd cc
parts (some a) (some b) p = ((_, refl), (_, refl))

-- A string of 19 bytes at least can be read as an id, with the NUL behind it.
abbrev pub IsLong : List ℕ → Type 0
IsLong s = 19 ≤ length s

id-IsPrinted : (s : List ℕ) → IsLong s → IsPrinted (print_node_id_string s)
unfolding print_node_id_string string_to_node_id
id-IsPrinted s h = elim (Option-cases (print_node_id_string s)) [
  | inl cut ↦ absurd (ground (arith, length-append s (0 ∷ []), cut))
  | inr printed ↦ printed
]

IsPrinted-id : (s : List ℕ) → IsPrinted (print_node_id_string s) → IsLong s
unfolding print_node_id_string string_to_node_id
IsPrinted-id s (x, e) = ground (arith, length-append s (0 ∷ []), e)

-- The fixed text.
abbrev before_node : List Out
before_node = say "node id " ∷ []

abbrev after_node : EbcNode → List Out
after_node n =
    say "node ip " ∷ number n.ip ∷ endl ∷ say "node port " ∷ number n.port_nat ∷ endl ∷ []

nodes-IsPrinted :
    (ns : List EbcNode) → All (λ (n : EbcNode). IsLong n.id) ns → IsPrinted (print_ebcnodes ns)
unfolding print_ebcnodes
nodes-IsPrinted [] h = ([], refl)
nodes-IsPrinted (n ∷ ns) (h, hs) =
    both (some before_node) _ (before_node, refl)
      (both (print_node_id_string n.id) _ (id-IsPrinted n.id h) (
        both (some (after_node n)) (print_ebcnodes ns) (after_node n, refl)
          (nodes-IsPrinted ns hs)))

IsPrinted-nodes :
    (ns : List EbcNode) → IsPrinted (print_ebcnodes ns) → All (λ (n : EbcNode). IsLong n.id) ns
unfolding print_ebcnodes
IsPrinted-nodes [] p = tt
IsPrinted-nodes (n ∷ ns) p =
    let (_, after) = parts (some before_node) _ p in
    let (id, rest) = parts (print_node_id_string n.id) _ after in
    let (_, others) = parts (some (after_node n)) (print_ebcnodes ns) rest in
    (IsPrinted-id n.id id, IsPrinted-nodes ns others)

body-IsPrinted_iff :
    (m : EbcMsg) → IsPrinted (print_body m) ↔ All (λ (n : EbcNode). IsLong n.id) (nodes m).ebcnodes
unfolding print_body
body-IsPrinted_iff m = go m.body
  where
    go :
        (b : Body)
        → IsPrinted (print_body (record m { body = b }))
          ↔ All (λ (n : EbcNode). IsLong n.id) (nodes (record m { body = b })).ebcnodes
    go body_not_set = ((λ p. tt), (λ h. ([], refl)))
    go (msg_body []) = ((λ p. tt), (λ h. ([], refl)))
    go (msg_body (c ∷ s)) =
        ((λ p. tt), (λ h. (say "msg body: " ∷ raw (c ∷ s) ∷ endl ∷ [], ground arith)))
    go (nodes_body ns) = (IsPrinted-nodes ns.ebcnodes, nodes-IsPrinted ns.ebcnodes)

abbrev before_src : EbcMsg → List Out
before_src m = say "version:" ∷ raw m.version ∷ endl ∷ say "src_id:" ∷ []

abbrev before_dst : List Out
before_dst = say "dst_id:" ∷ []

abbrev after_dst : EbcMsg → List Out
after_dst m =
    print_type m.type
    ++ (print_sub_type m.sub_type ++ (say "length: " ∷ number m.length_ ∷ endl ∷ []))

-- `msgPrint`, which `unpack` runs on each message that it accepts, is defined exactly where the sender's
-- id, the destination and the id of every node that is listed have 19 bytes at least.
pub msg_print_iff :
    (m : EbcMsg)
    → ((out : List Out) × (msg_print m ≡ some out))
      ↔ (IsLong m.src_id × IsLong m.dst_id × All (λ (n : EbcNode). IsLong n.id) (nodes m).ebcnodes)
unfolding msg_print
msg_print_iff m = (forth, back)
  where
    forth :
        IsPrinted (msg_print m)
        → IsLong m.src_id × IsLong m.dst_id × All (λ (n : EbcNode). IsLong n.id) (nodes m).ebcnodes
    forth p =
        let (_, p1) = parts (some (before_src m)) _ p in
        let (src, p2) = parts (print_node_id_string m.src_id) _ p1 in
        let (_, p3) = parts (some before_dst) _ p2 in
        let (dst, p4) = parts (print_node_id_string m.dst_id) _ p3 in
        let (_, body) = parts (some (after_dst m)) (print_body m) p4 in
        (IsPrinted-id m.src_id src, IsPrinted-id m.dst_id dst, (body-IsPrinted_iff m).0 body)

    back :
        IsLong m.src_id × IsLong m.dst_id × All (λ (n : EbcNode). IsLong n.id) (nodes m).ebcnodes
        → IsPrinted (msg_print m)
    back (src, dst, ids) =
        both (some (before_src m)) _ (before_src m, refl)
          (both (print_node_id_string m.src_id) _ (id-IsPrinted m.src_id src) (
            both (some before_dst) _ (before_dst, refl)
              (both (print_node_id_string m.dst_id) _ (id-IsPrinted m.dst_id dst) (
                both (some (after_dst m)) (print_body m) (after_dst m, refl)
                  ((body-IsPrinted_iff m).1 ids)))))

-- The messages that `pack` makes of a node, under GET_NODE or PUNCH, have no destination.
msg_print-described :
    (w : Wire) (self_id dst : List ℕ) (type sub : ℕ) (n : EbcNode)
    → msg_print (described w self_id type (a_node n) sub dst) ≡ none
msg_print-described w self_id dst type sub n =
    let m = described w self_id type (a_node n) sub dst in
    elim (Option-cases (msg_print m)) [
      | inl undefined ↦ undefined
      | inr printed ↦
          (let (_, short, _) = (msg_print_iff m).0 printed in absurd (omega (arith, short)))
    ]
