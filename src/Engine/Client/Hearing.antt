-- ===== src/Engine/Client/Hearing.antt =====
-- src/netengine.cpp: what a peer does with the greeting of `sendHello`.
use ebc_node.Base.{
  ℕ, ◌^◌, ◌≤◌, ◌<◌, ◌≡◌, refl, ◌∙◌, inl, inr, Bool-cases, some, List, [], ◌∷◌, ◌==◌, arith, length,
}
use mathlib.Core.List.{Memᴰ}
use mathlib.Core.List.Memᴰ.{head, tail}
use ebc_node.Wire.{Wire, ok}
use ebc_node.Wire.Laws.{WireLaws}
use ebc_node.Node.{Node, NodeId}
use ebc_node.Proto.Enums.{type_rep, sub_data}
use ebc_node.Proto.Msg.{serialize}
use ebc_node.MsgPack.{text, new_pack, unpack}
use ebc_node.Engine.World.{Udt, World, Call, recv}
use ebc_node.Engine.Message.{buffer_size, received_into, dispatch, handle_msg}
use ebc_node.Engine.Message.Reads.{after_recv, unpack-received, handle_msg-reads}
use ebc_node.Engine.Message.Delivery.{last_sent, sent_by, sent_by-run}
use ebc_node.Engine.Client.{hello_round}
use ebc_node.Engine.Client.Thread.{hello_text}
use ebc_node.Engine.Client.HelloText.{length-hello_text}
use ebc_node.Engine.Client.Greeting.{hello_msg, hello-fits, Peered, greetings, hello_round-greets}

-- The last bytes on a socket are a greeting to some node.
abbrev Greeted : Wire → List ℕ → List ℕ → ℕ → List Call → Type 0
Greeted w self_id hello k calls =
    (dst : NodeId) × (length dst ≡ 20)
    × (last_sent k calls ≡ some (serialize w (hello_msg w self_id hello dst)))

module _ (w : Wire) (self_id hello : List ℕ) (k : ℕ) where
  greetings-kept :
      (peers : List (NodeId × Node)) (ss : List ℕ) (calls : List Call)
      → Peered peers ss
      → Greeted w self_id hello k calls
      → Greeted w self_id hello k (greetings w self_id hello peers ss calls)
  greetings-kept [] [] calls peered greeted = greeted
  greetings-kept [] (s ∷ ss) calls peered greeted = absurd peered
  greetings-kept (c ∷ peers) [] calls peered greeted = absurd peered
  greetings-kept ((id, peer) ∷ peers) (s ∷ ss) calls (h, on, peered) (dst, size, sent) =
      greetings-kept peers ss _ peered (elim (Bool-cases (s == k)) [
        | inl same ↦ (peer.id, h, ground (arith, same))
        | inr other ↦ (dst, size, ground (arith, other, sent))
      ])

  greetings-Greeted :
      (peers : List (NodeId × Node)) (ss : List ℕ) (calls : List Call)
      → Peered peers ss
      → Memᴰ k ss
      → Greeted w self_id hello k (greetings w self_id hello peers ss calls)
  greetings-Greeted [] [] calls peered m = elim m [ ]
  greetings-Greeted [] (s ∷ ss) calls peered m = absurd peered
  greetings-Greeted (c ∷ peers) [] calls peered m = absurd peered
  greetings-Greeted ((id, peer) ∷ peers) (s ∷ ss) calls (h, on, peered) (head e) =
      greetings-kept peers ss _ peered (peer.id, h, ground (arith, e))
  greetings-Greeted ((id, peer) ∷ peers) (s ∷ ss) calls (h, on, peered) (tail m) =
      greetings-Greeted peers ss _ peered m

-- A node greets its peers with the count of a round, where ids have 20 bytes and every peer a socket. A
-- peer that receives what the round sent last on one of these sockets gets bytes that `unpack` accepts,
-- the printing left aside: what it reads there is the greeting of that round, with the id of the node that
-- greets and the text of the count, all of it as it was packed. With it the peer comes to the end of
-- `handleMsg`: nothing is called but `UDT::recv`, and no table is changed.
pub handle_msg-hears :
    {w : Wire} (laws : WireLaws w) (udt : Udt) (count : ℕ) (ss : List ℕ) (s : World) (k : ℕ)
    (c : World) (sock : ℕ)
    → count < 2 ^ 31
    → length s.engine.self.id ≡ 20
    → Peered s.engine.peer_node ss
    → Memᴰ k ss
    → udt.received (recv sock buffer_size ∷ c.calls)
      ≡ sent_by k (hello_round w (hello_text count)) s
    → (bytes : List ℕ) × (dst : NodeId) × (sent_by k (hello_round w (hello_text count)) s
        ≡ some bytes)
      × (unpack w (new_pack c.engine.self.id) (received_into buffer_size bytes) (length bytes)
          ≡ ok (record {
            self_id = c.engine.self.id;
            ebc_msg = hello_msg w s.engine.self.id (hello_text count) dst;
          }))
      × (handle_msg w udt sock c ≡ some (tt, after_recv sock c))
unfolding dispatch
handle_msg-hears {w} laws udt count ss s k c sock small id_size peered on got =
    let self_id = s.engine.self.id in
    let hello = hello_text count in
    let room : length hello ≤ 63 = omega (arith, length-hello_text count small) in
    let sent =
      sent_by-run k (hello_round w hello) s _
        (hello_round-greets laws count ss s small id_size peered) in
    let (dst, size, last) =
      greetings-Greeted w self_id hello k s.engine.peer_node ss s.calls peered on in
    let fits : length self_id < 2 ^ 31 = omega arith in
    let fits' : length dst < 2 ^ 31 = omega arith in
    let small_enough = hello-fits laws self_id hello id_size room dst size in
    (
      serialize w (hello_msg w self_id hello dst),
      dst,
      sent ∙ last,
      unpack-received laws udt sock self_id dst fits fits' c.engine.self.id type_rep sub_data
          (text hello) (refl, refl, omega arith) (omega (arith, small_enough)),
      handle_msg-reads laws udt sock self_id dst fits fits' type_rep sub_data (text hello) c
          (got ∙ (sent ∙ last)) (refl, refl, omega arith) (omega (arith, small_enough)),
    )
