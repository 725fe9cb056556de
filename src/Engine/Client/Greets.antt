-- ===== src/Engine/Client/Greets.antt =====
-- The thread of `sendHello`, over a number of rounds.
use ebc_node.Base.{
  ℕ, zero, suc, ◌+◌, ◌-◌, ◌^◌, ◌<◌, ltb, ◌≡◌, refl, ◌∙◌, true, some, List, arith, length,
}
use ebc_node.Wire.{Wire}
use ebc_node.Wire.Laws.{WireLaws}
use ebc_node.Node.{Node, NodeId}
use ebc_node.Engine.World.{World, Call, going, >>=-eq}
use ebc_node.Engine.Client.{hello_round}
use ebc_node.Engine.Client.Thread.{hello_text, hello_loop}
use ebc_node.Engine.Client.Greeting.{Peered, greetings, hello_round-greets}

-- The sends of so many rounds, from a count on, the latest first.
abbrev pub all_greetings :
    Wire → List ℕ → List (NodeId × Node) → List ℕ → ℕ → ℕ → List Call → List Call
all_greetings w self_id peers ss zero count before = before
all_greetings w self_id peers ss (suc rounds) count before =
    all_greetings w self_id peers ss rounds (count + 1)
      (greetings w self_id (hello_text count) peers ss before)

-- Where this node and every peer have an id of 20 bytes, every peer a socket, and the flag of the
-- thread stays set: the thread of `sendHello`, from a count on and as long as the count after
-- the last round is one that an `int` holds, greets all peers in every round. Each is sent exactly the bytes of the greeting with the
-- count of the round, once and in the order of the table; nothing else is called, and no table changed.
pub hello_loop-greets :
    {w : Wire} (laws : WireLaws w) (rounds count : ℕ) (ss : List ℕ) (s : World)
    → count + rounds < 2 ^ 31
    → length s.engine.self.id ≡ 20
    → s.engine.boot_thread_flag ≡ true
    → Peered s.engine.peer_node ss
    → hello_loop w rounds count s
      ≡ some (
        going,
        record s {
          calls = all_greetings w s.engine.self.id s.engine.peer_node ss rounds count s.calls;
        },
      )
unfolding hello_loop
hello_loop-greets laws zero count ss s small size on peered = refl
hello_loop-greets {w} laws (suc rounds) count ss s small size on peered =
    let now = hello_round-greets laws count ss s (omega arith) size peered in
    let after : World = record s {
      calls = greetings w s.engine.self.id (hello_text count) s.engine.peer_node ss s.calls;
    } in
    let later = hello_loop-greets laws rounds (count + 1) ss after (omega arith) size on peered in
    simp (on, can) (>>=-eq (hello_round w (hello_text count)) _ s now ∙ later)
  where
    can : ltb count (2 ^ 31 - 1) ≡ true
    can = ground arith
