-- ===== src/Proto/Node/Laws.antt =====
-- `EbcNode`: copies are equal, the size is the number of bytes written, and parsing inverts
-- serialising.
use ebc_node.Base.{
  ℕ, ◌^◌, ◌<◌, ◌≡◌, refl, ap, ◌∙◌, ◌≢◌, true, List, [], ◌++◌, arith, length, length-append,
}
use ebc_node.Wire.{Wire, ok, stuck}
use ebc_node.Wire.Laws.{WireLaws}
use ebc_node.Proto.Fields.{
  bytes_field, uint32_field, raw_unknown, raw_unknown-nil, length-bytes_field, length-uint32_field,
}
use ebc_node.Proto.Loop.{at_field}
use ebc_node.Proto.Loop.Keeps.{with_value-Keeps, if-Keeps}
use ebc_node.Proto.Loop.Runs.{
  Parses, Parses-end, Parses-uint32, Parses-bytes, merge_partial-Parses, Advances,
  merge_partial-ne-stuck,
}
use ebc_node.Proto.Node.{
  EbcNode, new_node, copy_from, copy_node, internal_swap, byte_size, serialize, step,
  merge_partial_node, set_id, set_ip, set_port_nat,
}

-- What the C++ types guarantee: 32-bit numbers, and a string within protobuf's 2 GB limit.
pub record IsNode (m : EbcNode) : Type 0 where
  pub id_fits : length m.id < 2 ^ 31
  pub ip_fits : m.ip < 2 ^ 32
  pub port_nat_fits : m.port_nat < 2 ^ 32

pub copy_from-eq : (m from : EbcNode) → copy_from m from ≡ from
unfolding copy_from
copy_from-eq m from = ground arith

copy_node-eq : (from : EbcNode) → copy_node from ≡ from
unfolding copy_node
copy_node-eq from = ground arith

pub internal_swap-eq : (a b : EbcNode) → internal_swap (a, b) ≡ (b, a)
unfolding internal_swap
internal_swap-eq a b = refl

module _ {w : Wire} (laws : WireLaws w) where
  pub length-serialize : (m : EbcNode) → IsNode m → length (serialize w m) ≡ byte_size w m
  unfolding serialize byte_size
  length-serialize m v = omega (
    arith,
    length-append (bytes_field w 1 m.id)
        (uint32_field w 2 m.ip ++ (uint32_field w 3 m.port_nat ++ raw_unknown w m.unknown)),
    length-append (uint32_field w 2 m.ip) (uint32_field w 3 m.port_nat ++ raw_unknown w m.unknown),
    length-append (uint32_field w 3 m.port_nat) (raw_unknown w m.unknown),
    length-bytes_field laws 1 m.id (omega arith) v.id_fits,
    length-uint32_field laws 2 m.ip (omega arith) v.ip_fits,
    length-uint32_field laws 3 m.port_nat (omega arith) v.port_nat_fits,
  )

  -- Reading a serialised node into an empty one gives it back, for a node with no unknown fields.
  pub serialize-Parses :
      (m : EbcNode)
      → IsNode m
      → m.unknown ≡ []
      → merge_partial_node w (serialize w m) new_node ≡ ok (m, true)
  unfolding merge_partial_node serialize step
  serialize-Parses m v plain =
      merge_partial-Parses laws (step w) _ new_node all chunks
      ∙ ap (λ (x : EbcNode). ok (x, true)) (ground arith)
    where
      with_id : EbcNode
      with_id = set_id new_node m.id

      with_ip : EbcNode
      with_ip = set_ip with_id m.ip

      all : EbcNode
      all = set_port_nat with_ip m.port_nat

      unknown_end : Parses laws (step w) (raw_unknown w m.unknown) all all
      unknown_end = rw (plain, raw_unknown-nil w) (Parses-end laws (step w) all)

      chunks : Parses laws (step w) (serialize w m) new_node all
      chunks =
          Parses-bytes laws (step w) 1 m.id _ new_node with_id all (omega arith) v.id_fits
            (λ e. rw (e, set_id)) (λ mid e. rw (e, step))
            (Parses-uint32 laws (step w) 2 m.ip _ with_id with_ip all (omega arith) v.ip_fits
              (λ e. rw (e, set_ip)) (λ mid e. rw (e, step))
              (Parses-uint32 laws (step w) 3 m.port_nat _ with_ip all all (omega arith)
                v.port_nat_fits (λ e. rw (e, set_port_nat)) (λ mid e. rw (e, step)) unknown_end))

  -- Parsing a node always comes to an end, on any bytes.
  step-Advances : Advances laws (step w)
  unfolding step
  step-Advances t b input m =
      if-Keeps input (at_field b t 1 10)
        (with_value-Keeps input _ (set_id m) (laws.read_delimited_takes input))
        (if-Keeps input (at_field b t 2 16)
          (with_value-Keeps input _ (set_ip m) (laws.read_uint32_takes input))
          (if-Keeps input (at_field b t 3 24)
            (with_value-Keeps input _ (set_port_nat m) (laws.read_uint32_takes input))
            (with_value-Keeps input _ (λ u. record m { unknown = m.unknown ++ u })
              (λ rest u. laws.skip_field_takes input rest u t))))

  pub merge_partial_node-ne-stuck :
      (input : List ℕ) (m : EbcNode) → merge_partial_node w input m ≢ stuck
  unfolding merge_partial_node
  merge_partial_node-ne-stuck input m = merge_partial-ne-stuck laws (step w) step-Advances input m
