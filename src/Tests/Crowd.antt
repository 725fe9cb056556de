-- ===== src/Tests/Crowd.antt =====
-- The witness for a server with more clients than a reply has room for.
use ebc_node.Base.{
  ℕ, zero, suc, ◌+◌, ◌/◌, ◌%◌, ◌≡◌, refl, none, some, List, [], ◌∷◌, arith, length, replicate, All,
}
use ebc_node.Utils.{com_port_nat}
use ebc_node.SockAddr.{get_ipv4, raw_port, first_u16, first_u32}
use ebc_node.Node.{Node, NodeId}
use ebc_node.Proto.Node.{EbcNode}
use ebc_node.Proto.Nodes.Bounds.{IsSmall}
use ebc_node.Engine.World.{World}
use ebc_node.Engine.Message.{listed, handle_msg}
use ebc_node.Engine.Message.Reads.{after_recv}
use ebc_node.Engine.Message.Requests.{Told}
use ebc_node.Engine.Message.Announce.{CanServe}
use ebc_node.Engine.Message.Overflow.{AreFull, handle_msg-overflows}
use ebc_node.Tests.SimpleWire.{simple, simple-WireLaws}
use ebc_node.Tests.Tables.{id_of, node_of, with_client}
use ebc_node.Tests.Protocol.{asking, asking-IsSmall, asked}

-- Clients under different ids, in the order of their ids, from the `k`-th on.
abbrev nth_id : ℕ → NodeId
nth_id k = (k / 256) ∷ (k % 256) ∷ replicate 18 0

abbrev nth_node : ℕ → Node
nth_node k = record (node_of 2 k) { id = nth_id k }

abbrev nth_entry : ℕ → EbcNode
nth_entry k = record { id = nth_id k; ip = 16777343; port_nat = com_port_nat 640 3; unknown = [] }

crowd : ℕ → ℕ → List (NodeId × Node)
crowd zero k = []
crowd (suc n) k = (nth_id k, nth_node k) ∷ crowd n (k + 1)

crowd_entries : ℕ → ℕ → List EbcNode
crowd_entries zero k = []
crowd_entries (suc n) k = nth_entry k ∷ crowd_entries n (k + 1)

crowd_socks : ℕ → ℕ → List ℕ
crowd_socks zero k = []
crowd_socks (suc n) k = k ∷ crowd_socks n (k + 1)

nth-listed : (k : ℕ) → listed (nth_node k) ≡ some (nth_entry k)
unfolding listed get_ipv4 raw_port first_u16 first_u32
nth-listed k = refl

crowd-Told : (n k : ℕ) → Told (crowd n k) (crowd_entries n k) (crowd_socks n k)
unfolding crowd crowd_entries crowd_socks
crowd-Told zero k = tt
crowd-Told (suc n) k = (nth-listed k, refl, crowd-Told n (k + 1))

length-crowd_entries : (n k : ℕ) → length (crowd_entries n k) ≡ n
unfolding crowd_entries
length-crowd_entries zero k = refl
length-crowd_entries (suc n) k = omega (arith, length-crowd_entries n (k + 1))

crowd-AreFull : (n k : ℕ) → AreFull (crowd_entries n k)
unfolding crowd_entries
crowd-AreFull zero k = tt
crowd-AreFull (suc n) k = (refl, crowd-AreFull n (k + 1))

nth-IsSmall : (k : ℕ) → IsSmall (nth_entry k)
unfolding com_port_nat
nth-IsSmall k = (
  (record { id_fits = omega arith; ip_fits = omega arith; port_nat_fits = omega arith }, refl),
  omega arith,
)

crowd-IsSmall : (n k : ℕ) → All IsSmall (crowd_entries n k)
unfolding crowd_entries
crowd-IsSmall zero k = tt
crowd-IsSmall (suc n) k = (nth-IsSmall k, crowd-IsSmall n (k + 1))

abbrev crowded : World
crowded = record { engine = record with_client { client_node = crowd 280 0 }; calls = [] }

crowded-CanServe :
    CanServe simple asked 6
      (after_recv 6 crowded)
      asking
      (id_of 3)
      (crowd_entries 280 0)
      (crowd_socks 280 0)
crowded-CanServe = record {
  serves = refl;
  self_size = refl;
  src_size = refl;
  told = crowd-Told 280 0;
  small = crowd-IsSmall 280 0;
  ip_fits = omega arith;
  port_fits = omega arith;
  memory_fits = omega arith;
}

handle_msg-overflows_example : handle_msg simple asked 6 crowded ≡ none
handle_msg-overflows_example =
    handle_msg-overflows simple-WireLaws asked 6 asking (id_of 3) (crowd_entries 280 0)
      (crowd_socks 280 0) crowded refl asking-IsSmall crowded-CanServe (crowd-AreFull 280 0)
      (omega (arith, length-crowd_entries 280 0)) (omega (arith, length-crowd_entries 280 0))
