-- ===== src/Engine/Message/Requests.antt =====
-- What the switch of `handleMsg` does with a message that lists no node, and how the clients are told.
use ebc_node.Base.{
  ℕ, ◌≤◌, ◌≡◌, refl, ap, ◌∙◌, ◌⊎◌, inl, inr, true, none, some, List, [], ◌∷◌, ◌++◌, arith, leb,
  length, take,
}
use ebc_node.Node.{Node, NodeId}
use ebc_node.Engine.World.{Udt, World, Call, send}
use ebc_node.Engine.Message.{notify_all, listed, dispatch, on_get_node, introduce}
use ebc_node.Wire.{Wire}
use ebc_node.Proto.Enums.{type_get_node, type_punch}
use ebc_node.Proto.Node.{EbcNode}
use ebc_node.Proto.Nodes.{EbcNodes, ebcnodes_at, add_ebcnodes}
use ebc_node.Proto.Msg.{nodes}
use ebc_node.MsgPack.{MsgPack}

no_first : (ns : EbcNodes) → ns.ebcnodes ≡ [] → ebcnodes_at ns 0 ≡ none
unfolding ebcnodes_at
no_first ns e = rw e refl

-- A message of the type PUNCH, at any node, or of the type GET_NODE, at a server, that lists no
-- node: the switch of `handleMsg` reads the first of no nodes, which is undefined.
pub dispatch-no_nodes :
    (w : Wire) (udt : Udt) (sock : ℕ) (p : MsgPack) (s : World)
    → (nodes p.ebc_msg).ebcnodes ≡ []
    → (p.ebc_msg.type ≡ type_punch)
      ⊎ ((p.ebc_msg.type ≡ type_get_node) × (s.engine.is_server ≡ true))
    → dispatch w udt sock p s ≡ none
unfolding dispatch on_get_node introduce
dispatch-no_nodes w udt sock p s e (inl t) = rw (t, no_first (nodes p.ebc_msg) e) refl
dispatch-no_nodes w udt sock p s e (inr (t, is)) = rw (t, is, no_first (nodes p.ebc_msg) e) refl

-- The clients as they are told of a new one: what the table holds of them, on which socket.
abbrev pub Told : List (NodeId × Node) → List EbcNode → List ℕ → Type 0
Told [] [] [] = Unit
Told ((id, node) ∷ clients) (n ∷ ns) (s ∷ ss) =
    (listed node ≡ some n) × (node.sock ≡ some s) × Told clients ns ss
Told _ _ _ = ⊥

-- The sends, the latest first.
abbrev pub sends : List ℕ → List ℕ → List Call → List Call
sends notice [] before = before
sends notice (s ∷ ss) before = sends notice ss (send s notice ∷ before)

++-assoc_step : (xs ys : List EbcNode) (y : EbcNode) → (xs ++ (y ∷ [])) ++ ys ≡ xs ++ (y ∷ ys)
++-assoc_step [] ys y = refl
++-assoc_step (x ∷ xs) ys y = ap (◌∷◌ x) (++-assoc_step xs ys y)

-- If every client in the table has a socket, an address and a port that are written: each is sent
-- the notice once, in the order of the table, nothing else is called, the tables are as before,
-- and the reply lists all of them in that order behind what it had.
pub notify_all-Told :
    (clients : List (NodeId × Node)) (ns : List EbcNode) (ss notice : List ℕ) (n : ℕ)
    (reply : EbcNodes) (s : World)
    → Told clients ns ss
    → n ≤ length notice
    → notify_all clients notice n reply s
      ≡ some (
        record reply { ebcnodes = reply.ebcnodes ++ ns },
        record s { calls = sends (take n notice) ss s.calls },
      )
unfolding notify_all add_ebcnodes
notify_all-Told [] [] [] notice n reply s told h = rw (++-nil reply.ebcnodes) refl
  where
    ++-nil : (xs : List EbcNode) → xs ++ [] ≡ xs
    ++-nil [] = refl
    ++-nil (x ∷ xs) = ap (◌∷◌ x) (++-nil xs)
notify_all-Told [] [] (s0 ∷ ss) notice n reply s told h = absurd told
notify_all-Told [] (n0 ∷ ns) ss notice n reply s told h = absurd told
notify_all-Told (c ∷ clients) [] ss notice n reply s told h = absurd told
notify_all-Told (c ∷ clients) (n0 ∷ ns) [] notice n reply s told h = absurd told
notify_all-Told ((id, node) ∷ clients) (n0 ∷ ns) (s0 ∷ ss) notice n reply s (l, k, told) h =
    rw (l, k, fits)
      (notify_all-Told clients ns ss notice n (add_ebcnodes reply n0)
          (record s { calls = send s0 (take n notice) ∷ s.calls }) told h
        ∙ rw (++-assoc_step reply.ebcnodes ns n0) refl)
  where
    fits : leb n (length notice) ≡ true
    fits = ground arith
