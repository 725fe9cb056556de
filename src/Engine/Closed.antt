-- ===== src/Engine/Closed.antt =====
-- Properties of the engine that the operations on its members keep: what the proofs about threads
-- take as given.
use ebc_node.Base.{ℕ, ◌≡◌, Bool, Option, some, List}
use ebc_node.Node.{Node, NodeId}
use ebc_node.Engine.{
  Engine, SockIn, add_client_node, add_peer_node, del_client_node, del_peer_node, update_peer_node,
}

-- What a message does.
pub record Handled (P : Engine → Type 0) : Type 0 where
  pub adds_client :
      (memory id : List ℕ) (addr : SockIn) (nat sock : ℕ) (e e' : Engine)
      → P e
      → add_client_node memory id addr nat sock e ≡ some e'
      → P e'
  pub adds_peer :
      (memory id : List ℕ) (ip port_nat sock : ℕ) (e e' : Engine)
      → P e
      → add_peer_node memory id ip port_nat sock e ≡ some e'
      → P e'

-- What the thread of the server does besides.
pub record Served (P : Engine → Type 0) : Type 0 where
  pub handled : Handled P
  pub dels_client : (sock : ℕ) (e : Engine) → P e → P (del_client_node sock e)

-- What all threads and the calls of `startClient`, `startServer` and the destructor do.
pub record Closed (P : Engine → Type 0) : Type 0 where
  pub served : Served P
  pub dels_peer : (sock : ℕ) (e : Engine) → P e → P (del_peer_node sock e)
  pub updates_peer : (id : NodeId) (node : Node) (e : Engine) → P e → P (update_peer_node id node e)
  pub indexes : (m : List (ℕ × NodeId)) (e : Engine) → P e → P (record e { sock_id_pair = m })
  pub sets_boot : (o : Option ℕ) (e : Engine) → P e → P (record e { boot_sock = o })
  pub sets_local :
      (a : SockIn) (b : Bool) (e : Engine)
      → P e
      → P (record e { local_addr = a; boot_thread_flag = b })
  pub serves :
      (b c : Bool) (e : Engine) → P e → P (record e { is_server = b; server_thread_flag = c })
  pub stops :
      (b c : Bool) (e : Engine)
      → P e
      → P (record e { boot_thread_flag = b; server_thread_flag = c })
