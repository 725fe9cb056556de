-- ===== src/Proto/Msg/Laws.antt =====
-- `EbcMsg`: copies are equal, swapping exchanges all of two messages, the size is the number of
-- bytes written, and parsing always ends.
use ebc_node.Base.{
  ℕ, ◌^◌, ◌<◌, ◌≡◌, refl, ap, ◌≢◌, List, [], ◌++◌, arith, if◌then◌else◌, length, All, length-append,
}
use ebc_node.Wire.{Wire, Result, stuck, with_value}
use ebc_node.Wire.Laws.{WireLaws}
use ebc_node.Proto.Fields.{
  merge_bytes-nil, merge_number-zero, length-bytes_field, length-uint32_field, length-enum_field,
}
use ebc_node.Proto.Loop.{at_field}
use ebc_node.Proto.Loop.Keeps.{
  with_value-Keeps, if-Keeps, read_message-Keeps, read_text-Keeps, Keeps,
}
use ebc_node.Proto.Loop.Runs.{Advances, merge_partial-ne-stuck}
use ebc_node.Proto.Nodes
use ebc_node.Proto.Nodes.{EbcNodes, merge_partial_nodes}
use ebc_node.Proto.Nodes.Laws.{
  IsPlain, length-serialize as length-nodes, merge_partial_nodes-ne-stuck,
}
use ebc_node.Proto.Msg.{
  Body, body_not_set, msg_body, nodes_body, EbcMsg, merge_body, copy_from, copy_msg, internal_swap,
  body_size, byte_size, body_field, serialize, step, merge_partial_msg, set_msg, set_nodes, nodes,
}

merge_body-not_set : (b : Body) → merge_body body_not_set b ≡ b
unfolding Nodes.merge_from
merge_body-not_set body_not_set = refl
merge_body-not_set (msg_body s) = refl
merge_body-not_set (nodes_body ns) = refl

-- `CopyFrom` leaves exactly the other message, whatever was there before, the body included.
pub copy_from-eq : (m from : EbcMsg) → copy_from m from ≡ from
unfolding copy_from
copy_from-eq m from = simp (merge_bytes-nil, merge_number-zero, merge_body-not_set)

copy_msg-eq : (from : EbcMsg) → copy_msg from ≡ from
unfolding copy_msg
copy_msg-eq from = simp (merge_bytes-nil, merge_body-not_set)

pub internal_swap-eq : (a b : EbcMsg) → internal_swap (a, b) ≡ (b, a)
unfolding internal_swap
internal_swap-eq a b = refl

-- A body within protobuf's limit of 2 GB, whose nodes have no unknown fields.
abbrev pub IsBody : Wire → Body → Type 0
IsBody w body_not_set = Unit {0}
IsBody w (msg_body s) = length s < 2 ^ 31
IsBody w (nodes_body ns) =
    All IsPlain ns.ebcnodes × (ns.unknown ≡ []) × (Nodes.byte_size w ns < 2 ^ 31)

-- What the C++ types guarantee of a message, protobuf's limits, and no unknown fields in its body.
pub record IsMsg (w : Wire) (m : EbcMsg) : Type 0 where
  pub version_fits : length m.version < 2 ^ 31
  pub src_id_fits : length m.src_id < 2 ^ 31
  pub dst_id_fits : length m.dst_id < 2 ^ 31
  pub head_fits : m.head < 2 ^ 32
  pub ttl_fits : m.ttl < 2 ^ 32
  pub id_fits : m.id < 2 ^ 32
  pub type_fits : m.type < 2 ^ 31
  pub sub_type_fits : m.sub_type < 2 ^ 31
  pub length_fits : m.length_ < 2 ^ 32
  pub body_fits : IsBody w m.body

module _ {w : Wire} (laws : WireLaws w) where
  pub nodes_written :
      (ns : EbcNodes)
      → IsBody w (nodes_body ns)
      → w.write_message 11 (Nodes.byte_size w ns) (Nodes.serialize w ns)
        ≡ w.write_delimited 11 (Nodes.serialize w ns)
  nodes_written ns (p, _, h) =
      rw (← length-nodes laws ns p h) (laws.write_message-write_delimited 11 (Nodes.serialize w ns))

  length-body_field : (b : Body) → IsBody w b → length (body_field w b) ≡ body_size w b
  unfolding body_field body_size
  length-body_field body_not_set v = refl
  length-body_field (msg_body s) v = laws.length-write_delimited 10 s (omega arith) v
  length-body_field (nodes_body ns) (p, u, h) = rw (nodes_written ns (p, u, h)) (
      omega (
        arith,
        laws.length-write_delimited 11 (Nodes.serialize w ns) (omega arith)
            (omega (arith, length-nodes laws ns p h)),
        ap w.delimited_size (length-nodes laws ns p h),
      ))

  -- `ByteSizeLong` is the number of bytes that are written, for a message within the ranges of the types
  -- and the 2 GB that protobuf allows each of its strings and its list of nodes, where neither the list of
  -- nodes nor a node in it has unknown fields; the message itself may have some.
  pub length-serialize : (m : EbcMsg) → IsMsg w m → length (serialize w m) ≡ byte_size w m
  unfolding serialize byte_size
  length-serialize m v = simp length-append (
      omega (
        arith,
        length-uint32_field laws 1 m.head (omega arith) v.head_fits,
        length-bytes_field laws 2 m.version (omega arith) v.version_fits,
        length-bytes_field laws 3 m.src_id (omega arith) v.src_id_fits,
        length-bytes_field laws 4 m.dst_id (omega arith) v.dst_id_fits,
        length-uint32_field laws 5 m.ttl (omega arith) v.ttl_fits,
        length-uint32_field laws 6 m.id (omega arith) v.id_fits,
        length-enum_field laws 7 m.type (omega arith) v.type_fits,
        length-enum_field laws 8 m.sub_type (omega arith) v.sub_type_fits,
        length-uint32_field laws 9 m.length_ (omega arith) v.length_fits,
        length-body_field m.body v.body_fits,
      ))

  step-Advances : Advances laws (step w)
  unfolding step
  step-Advances t b i m =
      number 1 8 (λ v. record m { head = v })
        (if-Keeps i (at_field b t 2 18)
          (read_text-Keeps i w _ (λ s. record m { version = s }) (laws.read_delimited_takes i))
          (bytes 3 26 (λ s. record m { src_id = s })
            (bytes 4 34 (λ s. record m { dst_id = s })
              (number 5 40 (λ v. record m { ttl = v })
                (number 6 48 (λ v. record m { id = v })
                  (enumerated 7 56 (λ v. record m { type = v })
                    (enumerated 8 64 (λ v. record m { sub_type = v })
                      (number 9 72 (λ v. record m { length_ = v })
                        (bytes 10 82 (set_msg m) (
                          if-Keeps i (at_field b t 11 90)
                            (read_message-Keeps i (λ s. merge_partial_nodes w s (nodes m)) _
                              (set_nodes m) (laws.read_delimited_takes i)
                              (λ s. merge_partial_nodes-ne-stuck laws s (nodes m)))
                            (with_value-Keeps i _ (λ u. record m { unknown = m.unknown ++ u })
                              (λ rest u. laws.skip_field_takes i rest u t))))))))))))
    where
      number :
          (f byte : ℕ) (set : ℕ → EbcMsg) {r : Result (EbcMsg × List ℕ)}
          → Keeps i r
          → Keeps i (if at_field b t f byte then with_value (w.read_uint32 i) set else r)
      number f byte set =
          if-Keeps i (at_field b t f byte) (with_value-Keeps i _ set (laws.read_uint32_takes i))

      enumerated :
          (f byte : ℕ) (set : ℕ → EbcMsg) {r : Result (EbcMsg × List ℕ)}
          → Keeps i r
          → Keeps i (if at_field b t f byte then with_value (w.read_enum i) set else r)
      enumerated f byte set =
          if-Keeps i (at_field b t f byte) (with_value-Keeps i _ set (laws.read_enum_takes i))

      bytes :
          (f byte : ℕ) (set : List ℕ → EbcMsg) {r : Result (EbcMsg × List ℕ)}
          → Keeps i r
          → Keeps i (if at_field b t f byte then with_value (w.read_delimited i) set else r)
      bytes f byte set =
          if-Keeps i (at_field b t f byte) (with_value-Keeps i _ set (laws.read_delimited_takes i))

  -- Parsing an `EbcMsg`, with the messages inside it, comes to an end on every input: no loop runs
  -- out of fuel.
  pub merge_partial_msg-ne-stuck :
      (input : List ℕ) (m : EbcMsg) → merge_partial_msg w input m ≢ stuck
  unfolding merge_partial_msg
  merge_partial_msg-ne-stuck input m = merge_partial-ne-stuck laws (step w) step-Advances input m
