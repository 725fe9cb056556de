-- ===== src/Proto/Nodes/Laws.antt =====
-- `EbcNodes`: copies are equal, the size is the number of bytes written, and parsing inverts
-- serialising.
use ebc_node.Base.{
  ℕ, ◌+◌, ◌^◌, ◌≤◌, ◌<◌, ◌≡◌, refl, sym, ap, ◌∙◌, ◌≢◌, true, List, [], ◌∷◌, ◌++◌, arith, length,
  All, length-append,
}
use ebc_node.Wire.{Wire, ok, stuck}
use ebc_node.Wire.Laws.{WireLaws}
use ebc_node.Proto.Fields.{raw_unknown, raw_unknown-nil}
use mathlib.Core.Path.{subst}
use mathlib.Core.List.{append-nil, append_assoc}
use ebc_node.Proto.Loop.{at_field, read_message}
use ebc_node.Proto.Loop.Keeps.{with_value-Keeps, if-Keeps, read_message-Keeps}
use ebc_node.Proto.Loop.Runs.{
  Parses, Parses-end, Parses-delimited, merge_partial-Parses, Advances, merge_partial-ne-stuck,
}
use ebc_node.Proto.Node
use ebc_node.Proto.Node.{EbcNode, new_node, merge_partial_node}
use ebc_node.Proto.Node.Laws.{
  IsNode, serialize-Parses as node-Parses, length-serialize as length-node,
  merge_partial_node-ne-stuck,
}
use ebc_node.Proto.Nodes.{
  EbcNodes, new_nodes, copy_from, internal_swap, message_sizes, byte_size, messages, serialize,
  step, merge_partial_nodes, add_ebcnodes,
}

pub copy_from-eq : (m from : EbcNodes) → copy_from m from ≡ from
unfolding copy_from
copy_from-eq m from = refl

pub internal_swap-eq : (a b : EbcNodes) → internal_swap (a, b) ≡ (b, a)
unfolding internal_swap
internal_swap-eq a b = refl

-- Entries as the types guarantee them, with no unknown fields.
abbrev pub IsPlain : EbcNode → Type 0
IsPlain n = IsNode n × (n.unknown ≡ [])

module _ {w : Wire} (laws : WireLaws w) where
  written :
      (n : EbcNode)
      → IsPlain n
      → w.write_message 1 (Node.byte_size w n) (Node.serialize w n)
        ≡ w.write_delimited 1 (Node.serialize w n)
  written n (v, _) =
      rw (← length-node laws n v) (laws.write_message-write_delimited 1 (Node.serialize w n))

  entry_fits : (n : EbcNode) → Node.byte_size w n ≤ w.delimited_size (Node.byte_size w n)
  entry_fits n = laws.delimited_size-le (Node.byte_size w n)

  length-messages :
      (ns : List EbcNode)
      → All IsPlain ns
      → message_sizes w ns < 2 ^ 31
      → length (messages w ns) ≡ length ns + message_sizes w ns
  unfolding messages message_sizes
  length-messages [] p h = refl
  length-messages (n ∷ ns) (v, p) h = rw (written n v) (
      omega (
        arith,
        length-append (w.write_delimited 1 (Node.serialize w n)) (messages w ns),
        laws.length-write_delimited 1 (Node.serialize w n) (omega arith)
            (omega (arith, length-node laws n v.0, entry_fits n)),
        ap w.delimited_size (length-node laws n v.0),
        length-messages ns p (omega arith),
      ))

  pub length-serialize :
      (m : EbcNodes)
      → All IsPlain m.ebcnodes
      → byte_size w m < 2 ^ 31
      → length (serialize w m) ≡ byte_size w m
  unfolding serialize byte_size
  length-serialize m p h = omega (
    arith,
    length-append (messages w m.ebcnodes) (raw_unknown w m.unknown),
    length-messages m.ebcnodes p (omega arith),
  )

  -- The entries are added one by one behind those that are there.
  messages-Parses :
      (ns acc : List EbcNode) (rest : List ℕ) (n : EbcNodes)
      → All IsPlain ns
      → message_sizes w ns < 2 ^ 31
      → Parses laws (step w) rest (record { ebcnodes = acc ++ ns; unknown = [] }) n
      → Parses laws (step w) (messages w ns ++ rest) (record { ebcnodes = acc; unknown = [] }) n
  unfolding messages message_sizes step
  messages-Parses [] acc rest n p h next =
      subst (λ x. Parses laws (step w) rest (record { ebcnodes = x; unknown = [] }) n)
        (append-nil acc) next
  messages-Parses (x ∷ ns) acc rest n (v, p) h next =
      rw (written x v, append_assoc)
        (Parses-delimited laws (step w) 1 (Node.serialize w x) (messages w ns ++ rest)
          (record { ebcnodes = acc; unknown = [] })
          (record { ebcnodes = acc ++ (x ∷ []); unknown = [] }) n (omega arith)
          (omega (arith, length-node laws x v.0, entry_fits x))
          (λ mid e. rw (e, step, read_message, node-Parses laws x v.0 v.1) refl)
          (messages-Parses ns (acc ++ (x ∷ [])) rest n p (omega arith) (
            subst (λ y. Parses laws (step w) rest (record { ebcnodes = y; unknown = [] }) n)
              (sym (append_assoc acc (x ∷ []) ns)) next)))

  pub serialize-Parses :
      (m : EbcNodes)
      → All IsPlain m.ebcnodes
      → m.unknown ≡ []
      → byte_size w m < 2 ^ 31
      → merge_partial_nodes w (serialize w m) new_nodes ≡ ok (m, true)
  unfolding merge_partial_nodes serialize byte_size
  serialize-Parses m p plain h =
      merge_partial-Parses laws (step w) _ new_nodes all
        (messages-Parses m.ebcnodes [] (raw_unknown w m.unknown) all p (omega arith) unknown_end)
      ∙ ap (λ (x : EbcNodes). ok (x, true)) (ground arith)
    where
      all : EbcNodes
      all = record { ebcnodes = m.ebcnodes; unknown = [] }

      unknown_end : Parses laws (step w) (raw_unknown w m.unknown) all all
      unknown_end = rw (plain, raw_unknown-nil w) (Parses-end laws (step w) all)

  step-Advances : Advances laws (step w)
  unfolding step
  step-Advances t b input m =
      if-Keeps input (at_field b t 1 10)
        (read_message-Keeps input (λ s. merge_partial_node w s new_node) _ (add_ebcnodes m)
          (laws.read_delimited_takes input) (λ s. merge_partial_node-ne-stuck laws s new_node))
        (with_value-Keeps input _ (λ u. record m { unknown = m.unknown ++ u })
          (λ rest u. laws.skip_field_takes input rest u t))

  pub merge_partial_nodes-ne-stuck :
      (input : List ℕ) (m : EbcNodes) → merge_partial_nodes w input m ≢ stuck
  unfolding merge_partial_nodes
  merge_partial_nodes-ne-stuck input m = merge_partial-ne-stuck laws (step w) step-Advances input m
