-- ===== src/Engine/Stale.antt =====
-- Where the two indices of the engine, by id and by socket, come apart.
use ebc_node.Base.{ℕ, ◌≡◌, ◌≢◌, none, some, arith}
use ebc_node.Base.StdMap.{find, insert, assign, find-insert, find-assign, find-erase}
use ebc_node.Node.{Node, NodeId, id_key, sock_key, ids_eq_iff}
use ebc_node.Engine.{Engine, put_client, del_client_node}

-- A client whose id is not in the table announces itself, and then a second time on the same
-- socket under another id: when the socket goes, only the second entry does; the first stays, with the closed socket in it.
pub stale_client :
    (id id' : NodeId) (node node' : Node) (sock : ℕ) (e : Engine)
    → id ≢ id'
    → find id e.client_node ≡ none
    → let e' = del_client_node sock (put_client id' node' sock (put_client id node sock e)) in
      (find id e'.client_node ≡ some node) × (find sock e'.sock_id_pair ≡ none)
unfolding del_client_node put_client
stale_client id id' node node' sock e differ new_id =
    rw (stored, del_client_node)
      (
        rw
            (
              find-erase id' id,
              find-insert id' id node' _,
              find-insert id id node e.client_node,
              new_id,
            )
            (ground (arith, ids_eq_iff id id', ids_eq_iff id id, differ)),
        rw (find-erase sock sock) (ground arith),
      )
  where
    stored : find sock (assign sock id' (assign sock id e.sock_id_pair)) ≡ some id'
    stored = rw (find-assign sock sock id' _) (ground arith)

-- A client whose id is not in the table announces itself, and then again on another socket, before
-- the first has been given up: its entry keeps the first socket, and when that goes the entry goes, although the second socket still names the
-- id.
pub lost_client :
    (id : NodeId) (node node' : Node) (sock sock' : ℕ) (e : Engine)
    → sock ≢ sock'
    → find id e.client_node ≡ none
    → let e' = put_client id node' sock' (put_client id node sock e) in
      (find id e'.client_node ≡ some node)
      × (find id (del_client_node sock e').client_node ≡ none)
      × (find sock' (del_client_node sock e').sock_id_pair ≡ some id)
unfolding del_client_node put_client
lost_client id node node' sock sock' e differ new_id = (
  kept,
  rw (stored, del_client_node, find-erase id id) (ground (arith, ids_eq_iff id id)),
  rw (stored, del_client_node, find-erase sock sock', find-assign sock' sock' id _)
      (ground (arith, differ)),
)
  where
    stored : find sock (assign sock' id (assign sock id e.sock_id_pair)) ≡ some id
    stored =
        rw (find-assign sock' sock id _, find-assign sock sock id e.sock_id_pair)
          (ground (arith, differ))

    kept : find id (insert id node' (insert id node e.client_node)) ≡ some node
    kept =
        rw (find-insert id id node' _, find-insert id id node e.client_node, new_id)
          (ground (arith, ids_eq_iff id id))
