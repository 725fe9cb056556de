-- ===== src/Bucket.antt =====
-- src/bucket.cpp and include/bucket.h: `NET::Bucket`, which nothing uses yet.
use ebc_node.Base.{ℕ, List, []}
use ebc_node.Utils.{Sp}
use ebc_node.Node.{Node, NodeId}

-- `maxNode`.
abbrev max_node : ℕ
max_node = 16

-- The members.
record Bucket : Type 0 where
  first_id : NodeId
  nodes : List (Sp Node)

-- `Bucket()`, which leaves the array `first_id` as the memory was.
unfoldable new_bucket : NodeId → Bucket
new_bucket memory = record { first_id = memory; nodes = [] }
