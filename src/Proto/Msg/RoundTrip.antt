-- ===== src/Proto/Msg/RoundTrip.antt =====
-- Parsing what `SerializeWithCachedSizes` wrote gives the message back, field by field.
use ebc_node.Base.{ℕ, ◌≡◌, refl, ap, ◌∙◌, true, List, [], ◌++◌, arith}
use ebc_node.Wire.{Wire, ok}
use ebc_node.Wire.Laws.{WireLaws}
use ebc_node.Proto.Fields.{bytes_field, uint32_field, enum_field, raw_unknown, raw_unknown-nil}
use mathlib.Core.Path.{subst}
use ebc_node.Proto.Loop.{read_message, read_text}
use ebc_node.Proto.Loop.Runs.{
  Parses, Parses-end, Parses-uint32, Parses-enum, Parses-bytes, Parses-delimited,
  merge_partial-Parses,
}
use ebc_node.Proto.Nodes
use ebc_node.Proto.Nodes.Laws as NodesLaws
use ebc_node.Proto.Msg.{
  Body, body_not_set, msg_body, nodes_body, EbcMsg, new_msg, body_field, serialize, step,
  merge_partial_msg,
}
use ebc_node.Proto.Msg.Laws.{IsMsg, IsBody, nodes_written}

module _ {w : Wire} (laws : WireLaws w) where
  -- The body, read into a message that has none yet.
  body-Parses :
      (b : Body) (rest : List ℕ) (m n : EbcMsg)
      → m.body ≡ body_not_set
      → IsBody w b
      → Parses laws (step w) rest (record m { body = b }) n
      → Parses laws (step w) (body_field w b ++ rest) m n
  unfolding body_field step
  body-Parses body_not_set rest m n fresh v next =
      subst (λ x. Parses laws (step w) rest x n) (ground arith) next
  body-Parses (msg_body s) rest m n fresh v next =
      Parses-delimited laws (step w) 10 s rest m (record m { body = msg_body s }) n (omega arith) v
        (λ mid e. rw (e, step)) next
  body-Parses (nodes_body ns) rest m n fresh (p, u, h) next = rw (nodes_written laws ns (p, u, h)) (
      Parses-delimited laws (step w) 11 (Nodes.serialize w ns) rest m
        (record m { body = nodes_body ns }) n (omega arith)
        (omega (arith, NodesLaws.length-serialize laws ns p h))
        (λ mid e. rw (e, step, read_message, fresh, NodesLaws.serialize-Parses laws ns p u h) refl)
        next)

  module _ (m : EbcMsg) (v : IsMsg w m) (plain : m.unknown ≡ [])
      (utf8 : w.verify_utf8 m.version ≡ true) where
    abbrev with_head : EbcMsg
    with_head = record new_msg { head = m.head }

    abbrev with_version : EbcMsg
    with_version = record with_head { version = m.version }

    abbrev with_src_id : EbcMsg
    with_src_id = record with_version { src_id = m.src_id }

    abbrev with_dst_id : EbcMsg
    with_dst_id = record with_src_id { dst_id = m.dst_id }

    abbrev with_ttl : EbcMsg
    with_ttl = record with_dst_id { ttl = m.ttl }

    abbrev with_id : EbcMsg
    with_id = record with_ttl { id = m.id }

    abbrev with_type : EbcMsg
    with_type = record with_id { type = m.type }

    abbrev with_sub_type : EbcMsg
    with_sub_type = record with_type { sub_type = m.sub_type }

    abbrev with_length : EbcMsg
    with_length = record with_sub_type { length_ = m.length_ }

    abbrev with_body : EbcMsg
    with_body = record with_length { body = m.body }

    abbrev From : EbcMsg → List ℕ → Type 0
    From x input = Parses laws (step w) input x with_body

    From-unknown : From with_body (raw_unknown w m.unknown)
    From-unknown = rw (plain, raw_unknown-nil w) (Parses-end laws (step w) with_body)

    From-type : From with_id (
        enum_field w 7 m.type
        ++ (enum_field w 8 m.sub_type
            ++ (uint32_field w 9 m.length_ ++ (body_field w m.body ++ raw_unknown w m.unknown))))
    unfolding step
    From-type =
        Parses-enum laws (step w) 7 m.type _ with_id with_type with_body (omega arith) v.type_fits
          (λ e. rw e) (λ mid e. rw (e, step))
          (Parses-enum laws (step w) 8 m.sub_type _ with_type with_sub_type with_body (omega arith)
            v.sub_type_fits (λ e. rw e) (λ mid e. rw (e, step))
            (Parses-uint32 laws (step w) 9 m.length_ _ with_sub_type with_length with_body
              (omega arith) v.length_fits (λ e. rw e) (λ mid e. rw (e, step))
              (body-Parses m.body _ with_length with_body refl v.body_fits From-unknown)))

    From-src_id : From with_version (
        bytes_field w 3 m.src_id
        ++ (bytes_field w 4 m.dst_id
            ++ (uint32_field w 5 m.ttl
                ++ (uint32_field w 6 m.id
                    ++ (enum_field w 7 m.type
                        ++ (enum_field w 8 m.sub_type
                            ++ (uint32_field w 9 m.length_
                                ++ (body_field w m.body ++ raw_unknown w m.unknown))))))))
    unfolding step
    From-src_id =
        Parses-bytes laws (step w) 3 m.src_id _ with_version with_src_id with_body (omega arith)
          v.src_id_fits (λ e. rw e) (λ mid e. rw (e, step))
          (Parses-bytes laws (step w) 4 m.dst_id _ with_src_id with_dst_id with_body (omega arith)
            v.dst_id_fits (λ e. rw e) (λ mid e. rw (e, step))
            (Parses-uint32 laws (step w) 5 m.ttl _ with_dst_id with_ttl with_body (omega arith)
              v.ttl_fits (λ e. rw e) (λ mid e. rw (e, step))
              (Parses-uint32 laws (step w) 6 m.id _ with_ttl with_id with_body (omega arith)
                v.id_fits (λ e. rw e) (λ mid e. rw (e, step)) From-type)))

    -- The bytes of a message within the types' ranges, without unknown fields and with a version
    -- that passes the check of UTF-8, are read into an empty message as exactly that message, up to
    -- their end.
    pub merge_partial_msg-serialize : merge_partial_msg w (serialize w m) new_msg ≡ ok (m, true)
    unfolding merge_partial_msg serialize step
    merge_partial_msg-serialize =
        merge_partial-Parses laws (step w) _ new_msg with_body (
          Parses-uint32 laws (step w) 1 m.head _ new_msg with_head with_body (omega arith)
            v.head_fits (λ e. rw e) (λ mid e. rw (e, step))
            (Parses-bytes laws (step w) 2 m.version _ with_head with_version with_body (omega arith)
              v.version_fits (λ e. rw e) (λ mid e. rw (e, step, read_text, utf8)) From-src_id))
        ∙ ap (λ (x : EbcMsg). ok (x, true)) same
      where
        same : with_body ≡ m
        same = ground arith
