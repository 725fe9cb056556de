-- ===== src/Engine/Client/Greeting.antt =====
-- One round of `sendHello`: what every peer receives, and the room that it takes.
use ebc_node.Base.{
  ℕ, ◌+◌, ◌-◌, ◌^◌, ◌≤◌, ◌<◌, ◌≡◌, refl, some, List, [], ◌∷◌, ◌++◌, arith, length, drop,
  length-append, length-drop, take-append,
}
use ebc_node.Wire.{Wire}
use ebc_node.Wire.Laws.{WireLaws}
use ebc_node.Proto.Enums.{type_rep, sub_data}
use ebc_node.Proto.Msg
use ebc_node.Proto.Msg.{EbcMsg, body_size, serialize, clear}
use ebc_node.Proto.Msg.Laws.{IsMsg, length-serialize}
use ebc_node.Proto.Msg.Bounds.{byte_size-le}
use ebc_node.MsgPack.{MsgPack, text, new_pack}
use ebc_node.MsgPack.Writes.{IsReady, pack-writes, pack_body-text}
use ebc_node.Engine.Message.Introduction.{length-zeros}
use ebc_node.Engine.World.Sends.{front-fits}
use ebc_node.MsgPack.Described.{described, described-IsMsg}
use ebc_node.Node.{Node, NodeId}
use ebc_node.Engine.World.{World, Call, send}
use ebc_node.Engine.Message.{zeros}
use ebc_node.Engine.Client.{greeting, hello_all, hello_round}
use ebc_node.Engine.Client.Thread.{hello_text}
use ebc_node.Engine.Client.HelloText.{length-hello_text}

-- The message for one peer.
abbrev pub hello_msg : Wire → List ℕ → List ℕ → NodeId → EbcMsg
hello_msg w self_id hello dst = described w self_id type_rep (text hello) sub_data dst

module _ {w : Wire} (laws : WireLaws w) (self_id hello : List ℕ) (id_size : length self_id ≡ 20)
    (room : length hello ≤ 63) where
  pub hello-IsMsg : (dst : NodeId) → length dst ≡ 20 → IsMsg w (hello_msg w self_id hello dst)
  hello-IsMsg dst h =
      described-IsMsg w self_id dst type_rep sub_data (text hello) (omega arith) (omega arith)
        (refl, refl, omega arith)

  pub hello-fits :
      (dst : NodeId) → length dst ≡ 20 → Msg.byte_size w (hello_msg w self_id hello dst) ≤ 1024
  unfolding body_size
  hello-fits dst h = omega (
    arith,
    byte_size-le laws (hello_msg w self_id hello dst) (hello-IsMsg dst h) refl,
    laws.delimited_size-bound (length hello) (omega arith),
  )

  length-greeting :
      (dst : NodeId) → length dst ≡ 20 → length (serialize w (hello_msg w self_id hello dst)) ≤ 1024
  length-greeting dst h = omega (
    arith,
    length-serialize laws (hello_msg w self_id hello dst) (hello-IsMsg dst h),
    hello-fits dst h,
  )

  greeting-packed :
      (p : MsgPack) (buffer : List ℕ) (dst : NodeId)
      → IsReady self_id p
      → 1024 ≤ length buffer
      → length dst ≡ 20
      → let m = hello_msg w self_id hello dst in
        greeting w p hello buffer dst
        ≡ some (record {
          object = record p { ebc_msg = m };
          buffer = some (serialize w m ++ drop (length (serialize w m)) buffer);
          ret = length (serialize w m);
        })
  greeting-packed p buffer dst ready large h =
      pack-writes laws p type_rep (text hello) buffer 1024 sub_data dst
        (hello_msg w self_id hello dst) (pack_body-text w self_id p dst ready hello (omega arith))
        (hello-IsMsg dst h) (hello-fits dst h) large

-- The peers with their sockets: each has an id of 20 bytes, and its socket is set.
abbrev pub Peered : List (NodeId × Node) → List ℕ → Type 0
Peered [] [] = Unit {0}
Peered ((id, peer) ∷ peers) (s ∷ ss) =
    (length peer.id ≡ 20) × (peer.sock ≡ some s) × Peered peers ss
Peered _ _ = ⊥

-- The sends of a round, the latest first.
abbrev pub greetings :
    Wire → List ℕ → List ℕ → List (NodeId × Node) → List ℕ → List Call → List Call
greetings w self_id hello ((id, peer) ∷ peers) (s ∷ ss) before =
    greetings w self_id hello peers ss
      (send s (serialize w (hello_msg w self_id hello peer.id)) ∷ before)
greetings w self_id hello _ _ before = before

module _ {w : Wire} (laws : WireLaws w) (self_id hello : List ℕ) (id_size : length self_id ≡ 20)
    (room : length hello ≤ 63) where
  hello_all-greets :
      (peers : List (NodeId × Node)) (ss : List ℕ) (p : MsgPack) (buffer : List ℕ) (s : World)
      → IsReady self_id p
      → 1024 ≤ length buffer
      → Peered peers ss
      → hello_all w peers hello p buffer s
        ≡ some (tt, record s { calls = greetings w self_id hello peers ss s.calls })
  unfolding hello_all
  hello_all-greets [] [] p buffer s ready large peered = refl
  hello_all-greets [] (s0 ∷ ss) p buffer s ready large peered = absurd peered
  hello_all-greets (c ∷ peers) [] p buffer s ready large peered = absurd peered
  hello_all-greets ((id, peer) ∷ peers) (s0 ∷ ss) p buffer s ready large (h, sock, peered) =
      let m = hello_msg w self_id hello peer.id in
      let bytes = serialize w m in
      let sent = bytes ++ drop (length bytes) buffer in
      let sizes : length sent ≡ length bytes + (length buffer - length bytes) = omega (
        arith,
        length-append bytes (drop (length bytes) buffer),
        length-drop (length bytes) buffer,
      ) in
      let still_large : 1024 ≤ length sent =
        omega (arith, length-greeting laws self_id hello id_size room peer.id h) in
      let again =
        hello_all-greets peers ss (record p { ebc_msg = m }) sent
          (record s { calls = send s0 bytes ∷ s.calls }) (ready.0, refl, refl, refl) still_large
          peered in
      rw
        (
          greeting-packed laws self_id hello id_size room p buffer peer.id ready large h,
          sock,
          front-fits bytes (drop (length bytes) buffer),
          take-append bytes (drop (length bytes) buffer),
        )
        again

-- Where this node and every peer have an id of 20 bytes, and every peer a socket: a round of
-- `sendHello` with the count that it prints is defined, sends each peer exactly the bytes of the
-- greeting to it, once and in the order of the table, calls nothing else, and changes no table.
pub hello_round-greets :
    {w : Wire} (laws : WireLaws w) (count : ℕ) (ss : List ℕ) (s : World)
    → count < 2 ^ 31
    → length s.engine.self.id ≡ 20
    → Peered s.engine.peer_node ss
    → hello_round w (hello_text count) s
      ≡ some (
        tt,
        record s {
          calls = greetings w s.engine.self.id (hello_text count) s.engine.peer_node ss s.calls;
        },
      )
unfolding hello_round new_pack clear
hello_round-greets {w} laws count ss s small id_size peered =
    hello_all-greets laws s.engine.self.id (hello_text count) id_size
      (omega (arith, length-hello_text count small)) s.engine.peer_node ss
      (new_pack s.engine.self.id) (zeros 1024) s (refl, refl, refl, refl)
      (omega (arith, length-zeros 1024)) peered
