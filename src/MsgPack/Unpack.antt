-- ===== src/MsgPack/Unpack.antt =====
-- What `unpack` accepts.
use ebc_node.Base.{
  ℕ, ◌≡◌, sym, ap, ◌∙◌, ◌≢◌, ◌↔◌, inl, inr, List, arith, if◌then◌else◌, length, take,
}
use ebc_node.Wire.{Wire, ok, stuck}
use ebc_node.Wire.Laws.{WireLaws}
use ebc_node.Proto.Enums.{type_empty}
use ebc_node.Proto.Nodes
use ebc_node.Proto.Msg.{EbcMsg, clear, nodes, has_nodes, msg}
use ebc_node.Proto.Msg.Laws.{merge_partial_msg-ne-stuck}
use mathlib.Core.Path.{subst}
use ebc_node.Wire.{Result-cases, >>=-eq-ok}
use ebc_node.MsgPack.{MsgPack, msg_head, parse_from_array, length_agrees, check, unpack}

-- A message that may pass: the magic number, a type, and the length of its body.
pub record IsAccepted (w : Wire) (m : EbcMsg) : Type 0 where
  pub magic : m.head ≡ msg_head
  pub typed : m.type ≢ type_empty
  pub measured : m.length_ ≡ (if has_nodes m then Nodes.byte_size w (nodes m) else length (msg m))

module _ (w : Wire) where
  check_complete : (m : EbcMsg) → IsAccepted w m → check w m ≡ ok m
  unfolding check length_agrees
  check_complete m a = ground arith

  check_sound : (m m' : EbcMsg) → check w m ≡ ok m' → IsAccepted w m × (m' ≡ m)
  unfolding check length_agrees
  check_sound m m' e = ground arith

  check-ne-stuck : (m : EbcMsg) → check w m ≢ stuck
  unfolding check
  check-ne-stuck m = ground arith

  unpack_only :
      (p p' : MsgPack) (buffer : List ℕ) (len : ℕ)
      → unpack w p buffer len ≡ ok p'
      → (parse_from_array w p.ebc_msg (take len buffer) ≡ ok p'.ebc_msg)
        × IsAccepted w p'.ebc_msg
        × (p'.self_id ≡ p.self_id)
  unfolding unpack
  unpack_only p p' buffer len e =
      let (m, parsed, e') = >>=-eq-ok (parse_from_array w p.ebc_msg (take len buffer)) _ e in
      let (m', checked, done) = >>=-eq-ok (check w m) _ e' in
      let (accepted, same) = check_sound m m' checked in
      let result : record p { ebc_msg = m' } ≡ p' = cc in
      let field : m ≡ p'.ebc_msg = sym same ∙ ap (λ (x : MsgPack). x.ebc_msg) result in
      (
        parsed ∙ ap ok field,
        subst (IsAccepted w) field accepted,
        sym (ap (λ (x : MsgPack). x.self_id) result),
      )

  unpack_whenever :
      (p p' : MsgPack) (buffer : List ℕ) (len : ℕ)
      → parse_from_array w p.ebc_msg (take len buffer) ≡ ok p'.ebc_msg
      → IsAccepted w p'.ebc_msg
      → p'.self_id ≡ p.self_id
      → unpack w p buffer len ≡ ok p'
  unfolding unpack
  unpack_whenever p p' buffer len parsed a same = rw (parsed, check_complete p'.ebc_msg a, ← same)

  -- `unpack` succeeds exactly when the bytes parse to a message with the magic number, a type other
  -- than EMPTY and a length field that is the size of its nodes or else of its text; the object then
  -- holds that message, and its own id as before.
  pub unpack_iff :
      (p p' : MsgPack) (buffer : List ℕ) (len : ℕ)
      → (unpack w p buffer len ≡ ok p') ↔ (
          (parse_from_array w p.ebc_msg (take len buffer) ≡ ok p'.ebc_msg)
          × IsAccepted w p'.ebc_msg
          × (p'.self_id ≡ p.self_id))
  unpack_iff p p' buffer len =
      (unpack_only p p' buffer len, λ h. unpack_whenever p p' buffer len h.0 h.1 h.2)

  -- The object keeps its own id.
  pub unpack-self_id :
      (p p' : MsgPack) (buffer : List ℕ) (len : ℕ)
      → unpack w p buffer len ≡ ok p'
      → p'.self_id ≡ p.self_id
  unpack-self_id p p' buffer len e = ((unpack_iff p p' buffer len).0 e).2

module _ {w : Wire} (laws : WireLaws w) where
  parse_from_array-ne-stuck : (m : EbcMsg) (bytes : List ℕ) → parse_from_array w m bytes ≢ stuck
  unfolding parse_from_array
  parse_from_array-ne-stuck m bytes =
      ground (arith, merge_partial_msg-ne-stuck laws bytes (clear m))

  -- `unpack` comes to an end on every buffer: the parse loops never run out of fuel.
  pub unpack-ne-stuck : (p : MsgPack) (buffer : List ℕ) (len : ℕ) → unpack w p buffer len ≢ stuck
  unfolding unpack
  unpack-ne-stuck p buffer len =
      elim (Result-cases (parse_from_array w p.ebc_msg (take len buffer))
        (parse_from_array-ne-stuck p.ebc_msg (take len buffer))) [
          | inr e ↦ rw e (λ h. cc)
          | inl (m, e) ↦ elim (Result-cases (check w m) (check-ne-stuck w m)) [
            | inr e' ↦ rw (e, e') (λ h. cc)
            | inl (m', e') ↦ rw (e, e') (λ h. cc)
          ]
        ]
