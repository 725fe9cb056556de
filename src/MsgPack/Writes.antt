-- ===== src/MsgPack/Writes.antt =====
-- The bytes that `pack` leaves in a buffer that is large enough, also for a packer that is used again.
use ebc_node.Base.{ℕ, ◌%◌, ◌^◌, ◌≤◌, ◌<◌, ◌≡◌, some, List, [], ◌++◌, arith, length, drop}
use ebc_node.Wire.{Wire}
use ebc_node.Wire.Laws.{WireLaws}
use ebc_node.Proto.Enums.{type_rep, sub_node, sub_data}
use ebc_node.Proto.Nodes
use ebc_node.Proto.Nodes.{EbcNodes}
use ebc_node.Proto.Msg
use ebc_node.Proto.Msg.{EbcMsg, new_msg, nodes_body, serialize}
use ebc_node.Proto.Msg.Laws.{IsMsg, length-serialize}
use ebc_node.MsgPack.{
  MsgPack, Payload, text, some_nodes, pack, pack_body, pack_header, pack_text, pack_nodes, ◌>>=?◌,
}
use ebc_node.MsgPack.Described.{described, described-IsMsg, IsPackable, pack_body-described}

-- A packer before its first message or after another: what a new message takes over is as it was.
abbrev pub IsReady : List ℕ → MsgPack → Type 0
IsReady self_id p =
    (p.self_id ≡ self_id) × (p.ebc_msg.ttl ≡ 0) × (p.ebc_msg.id ≡ 0) × (p.ebc_msg.unknown ≡ [])

module _ (w : Wire) (self_id : List ℕ) (p : MsgPack) (dst : List ℕ)
    (ready : IsReady self_id p) where
  -- A text over the message before.
  pub pack_body-text :
      (s : List ℕ)
      → length s < 2 ^ 31
      → pack_body w (pack_header p type_rep) type_rep (text s) sub_data dst
        ≡ some (described w self_id type_rep (text s) sub_data dst)
  unfolding pack_body pack_header pack_text
  pack_body-text s h =
      let (same_id, ttl, id, unknown) = ready in
      let small : length s % 2 ^ 32 ≡ length s = omega arith in
      rw (small, same_id, ttl, id, unknown)

  -- Nodes over the message before.
  pub pack_body-nodes :
      (ns : EbcNodes)
      → Nodes.byte_size w ns < 2 ^ 31
      → pack_body w (pack_header p type_rep) type_rep (some_nodes ns) sub_node dst
        ≡ some (described w self_id type_rep (some_nodes ns) sub_node dst)
  unfolding pack_body pack_header pack_nodes Nodes.copy_from
  pack_body-nodes ns h =
      let (same_id, ttl, id, unknown) = ready in
      let small : Nodes.byte_size w ns % 2 ^ 32 ≡ Nodes.byte_size w ns = omega arith in
      rw (small, same_id, ttl, id, unknown)

module _ {w : Wire} (laws : WireLaws w) where
  pub pack-writes :
      (p : MsgPack) (type : ℕ) (payload : Payload) (buffer : List ℕ) (size sub : ℕ) (dst : List ℕ)
      (m : EbcMsg)
      → pack_body w (pack_header p type) type payload sub dst ≡ some m
      → IsMsg w m
      → Msg.byte_size w m ≤ size
      → size ≤ length buffer
      → pack w p type payload (some buffer) size sub dst
        ≡ some (record {
          object = record p { ebc_msg = m };
          buffer = some (serialize w m ++ drop (length (serialize w m)) buffer);
          ret = length (serialize w m);
        })
  unfolding pack
  pack-writes p type payload buffer size sub dst m body valid fits room =
      rw (body, ◌>>=?◌, written, ← length-serialize laws m valid)
    where
      written :
          w.write_array (serialize w m) size buffer
          ≡ serialize w m ++ drop (length (serialize w m)) buffer
      written =
          laws.write_array_fits (serialize w m) buffer size
            (omega (arith, length-serialize laws m valid, fits)) room

  -- Where the size that is given is too small, the buffer stays as it was, and the size of the message is
  -- returned all the same.
  pub pack-leaves :
      (p : MsgPack) (type : ℕ) (payload : Payload) (buffer : List ℕ) (size sub : ℕ) (dst : List ℕ)
      (m : EbcMsg)
      → pack_body w (pack_header p type) type payload sub dst ≡ some m
      → IsMsg w m
      → size < Msg.byte_size w m
      → pack w p type payload (some buffer) size sub dst
        ≡ some (record {
          object = record p { ebc_msg = m };
          buffer = some buffer;
          ret = Msg.byte_size w m;
        })
  unfolding pack
  pack-leaves p type payload buffer size sub dst m body valid short = rw (body, ◌>>=?◌, unwritten)
    where
      unwritten : w.write_array (serialize w m) size buffer ≡ buffer
      unwritten =
          laws.write_array_short (serialize w m) buffer size
            (omega (arith, length-serialize laws m valid, short))

  -- Where the message of a payload that the program packs does not fit the given size, and has less than
  -- 2 GB, so that the `int` that is returned holds its size: `pack` of a fresh object still returns the
  -- full size of the message, and leaves the buffer as it was.
  pub pack_too_small :
      (self_id dst : List ℕ) (type sub : ℕ) (payload : Payload) (buffer : List ℕ) (size : ℕ)
      → length self_id < 2 ^ 31
      → length dst < 2 ^ 31
      → IsPackable w type payload sub
      → size < Msg.byte_size w (described w self_id type payload sub dst)
      → Msg.byte_size w (described w self_id type payload sub dst) < 2 ^ 31
      → let m = described w self_id type payload sub dst in
        pack w
          (record { self_id = self_id; ebc_msg = new_msg })
          type
          payload
          (some buffer)
          size
          sub
          dst
        ≡ some (record {
          object = record { self_id = self_id; ebc_msg = m };
          buffer = some buffer;
          ret = Msg.byte_size w m;
        })
  pack_too_small self_id dst type sub payload buffer size hs hd v large small =
      pack-leaves (record { self_id = self_id; ebc_msg = new_msg }) type payload buffer size sub dst
        (described w self_id type payload sub dst)
        (pack_body-described w self_id dst type sub payload v)
        (described-IsMsg w self_id dst type sub payload hs hd v) large
