-- ===== src/Engine/Client/Phantom.antt =====
-- A socket that becomes writable, although the index by socket does not know it.
use ebc_node.Base.{
  ℕ, ◌≡◌, refl, inl, inr, false, none, some, List, [], ◌∷◌, arith, Bool-cases, Option-cases,
}
use ebc_node.Base.StdMap.{find, insert, assign, find-insert, find-assign}
use ebc_node.SockAddr.{SockAddr, new_addr}
use ebc_node.Node.{
  Node, NodeId, connected, zero_id, default_node, set_state, id_key, sock_key, ids_eq_iff,
}
use ebc_node.Engine.{find_peer_node, update_peer_node}
use ebc_node.Engine.World.{Udt, World, M, ◌>>=◌, ◌>>◌, defined, send_buffer}
use ebc_node.Engine.Client.{greeting, index_id, mark_connected, hello_all, hello_round}
use ebc_node.Wire.{Wire}
use ebc_node.MsgPack.{MsgPack, Packed}

-- A step that is undefined from every state.
abbrev Faults {ℓ} : {A : Type ℓ} → M A → Type ℓ
Faults m = (s : World) → m s ≡ none

>>=-Faults {ℓ κ} :
    {A : Type ℓ} {B : Type κ} (m : M A) (f : A → M B) → ((a : A) → Faults (f a)) → Faults (m >>= f)
>>=-Faults m f h s = elim (Option-cases (m s)) [
  | inl e ↦ rw (e, ◌>>=◌) refl
  | inr ((a, s'), e) ↦ rw (e, ◌>>=◌) (h a s')
]

-- A peer without a socket, wherever it stands in the table: the greeting is undefined.
hello_all-no_sock :
    (w : Wire) (peers : List (NodeId × Node)) (hello : List ℕ) (packer : MsgPack) (buffer : List ℕ)
    (k : NodeId) (peer : Node)
    → find k peers ≡ some peer
    → peer.sock ≡ none
    → Faults (hello_all w peers hello packer buffer)
unfolding hello_all find
hello_all-no_sock w [] hello packer buffer k peer e h = cc
hello_all-no_sock w ((j, v) ∷ m) hello packer buffer k peer e h =
    >>=-Faults (defined (greeting w packer hello buffer v.id)) _ (λ packed.
      >>=-Faults (defined packed.buffer) _ (λ bytes. at_sock packed bytes (λ other.
        hello_all-no_sock w m hello packed.object bytes k peer (ground (arith, other)) h)))
  where
    at_sock :
        (packed : Packed) (bytes : List ℕ)
        → (id_key.eq k j ≡ false → Faults (hello_all w m hello packed.object bytes))
        → Faults (
            defined v.sock >>= λ sock.
            send_buffer sock bytes packed.ret >> hello_all w m hello packed.object bytes)
    at_sock packed bytes rest = elim (Bool-cases (id_key.eq k j)) [
      | inl same ↦ let none_here : v.sock ≡ none = ground (arith, same) in rw none_here (λ s. refl)
      | inr other ↦
          >>=-Faults (defined v.sock) _
            (λ sock. >>=-Faults (send_buffer sock bytes packed.ret) _ (λ _. rest other))
    ]

-- What is written for a socket without an entry in the index, if there is no peer with a zero id:
-- the node of `Node node;`.
mark_connected-phantom :
    (udt : Udt) (sock : ℕ) (s : World) (addr : SockAddr)
    → find sock s.engine.sock_id_pair ≡ none
    → find zero_id s.engine.peer_node ≡ none
    → new_addr (udt.memory s.calls) ≡ some addr
    → mark_connected udt sock s
      ≡ some (
        tt,
        record s {
          engine =
              update_peer_node zero_id
                (set_state connected (default_node addr))
                (index_id sock s.engine);
        },
      )
unfolding mark_connected index_id find_peer_node
mark_connected-phantom udt sock s addr no_index no_peer made = rw (indexed, made, no_peer) refl
  where
    indexed : find sock (insert sock zero_id s.engine.sock_id_pair) ≡ some zero_id
    indexed = rw (find-insert sock sock zero_id s.engine.sock_id_pair, no_index) (ground arith)

no_sock : (a : SockAddr) → (set_state connected (default_node a)).sock ≡ none
unfolding set_state default_node
no_sock a = refl

-- A socket that the index does not know is marked as connected, where no peer has a zero id and
-- the memory for an address suffices: the next round of greetings is undefined, since it sends on
-- a socket that was never set.
pub hello_round-mark_connected :
    (w : Wire) (udt : Udt) (sock : ℕ) (hello : List ℕ) (s : World) (addr : SockAddr)
    → find sock s.engine.sock_id_pair ≡ none
    → find zero_id s.engine.peer_node ≡ none
    → new_addr (udt.memory s.calls) ≡ some addr
    → (mark_connected udt sock >> hello_round w hello) s ≡ none
unfolding hello_round update_peer_node index_id
hello_round-mark_connected w udt sock hello s addr no_index no_peer made =
    rw (mark_connected-phantom udt sock s addr no_index no_peer made, ◌>>◌, ◌>>=◌)
      (hello_all-no_sock w _ hello _ _ zero_id (set_state connected (default_node addr)) found
        (no_sock addr) _)
  where
    found :
        find zero_id (assign zero_id (set_state connected (default_node addr)) s.engine.peer_node)
        ≡ some (set_state connected (default_node addr))
    found =
        rw (find-assign zero_id zero_id _ s.engine.peer_node)
          (ground (arith, ids_eq_iff zero_id zero_id))
