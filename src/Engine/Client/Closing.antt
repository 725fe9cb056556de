-- ===== src/Engine/Client/Closing.antt =====
-- What the destructor of the engine closes.
use ebc_node.Base.{ℕ, ◌≡◌, refl, ap, ◌∙◌, false, Option, some, List, [], ◌∷◌}
use ebc_node.Node.{Node, NodeId}
use ebc_node.Engine.{Engine}
use ebc_node.Engine.World.{World, Call, close, defined, >>=-eq}
use ebc_node.Engine.Client.{close_all, destroy}

-- The sockets of the nodes of a table, in its order.
abbrev Socks : List (NodeId × Node) → List ℕ → Type 0
Socks [] [] = Unit
Socks ((id, node) ∷ nodes) (s ∷ ss) = (node.sock ≡ some s) × Socks nodes ss
Socks _ _ = ⊥

-- The calls that close them, the latest first.
abbrev pub closes : List ℕ → List Call → List Call
closes [] before = before
closes (s ∷ ss) before = closes ss (close s ∷ before)

close_all-Socks :
    (nodes : List (NodeId × Node)) (ss : List ℕ) (s : World)
    → Socks nodes ss
    → close_all nodes s ≡ some (tt, record s { calls = closes ss s.calls })
unfolding close_all
close_all-Socks [] [] s h = refl
close_all-Socks [] (x ∷ ss) s h = absurd h
close_all-Socks (n ∷ nodes) [] s h = absurd h
close_all-Socks ((id, node) ∷ nodes) (x ∷ ss) s (e, h) =
    rw e (close_all-Socks nodes ss (record s { calls = close x ∷ s.calls }) h)

-- The engine after that, with both threads told to stop.
abbrev pub stopped : Engine → Engine
stopped e = record e { boot_thread_flag = false; server_thread_flag = false }

-- If the socket to the server and the socket of every peer and client were set, the destructor
-- closes the first, then those of the peers, then those of the clients, each once and in the order
-- of the tables, calls nothing else, and clears the flags of both threads.
pub destroy-closes :
    (s : World) (boot : ℕ) (peers clients : List ℕ)
    → s.engine.boot_sock ≡ some boot
    → Socks s.engine.peer_node peers
    → Socks s.engine.client_node clients
    → destroy s
      ≡ some (
        tt,
        record s {
          engine = stopped s.engine;
          calls = closes clients (closes peers (close boot ∷ s.calls));
        },
      )
unfolding destroy
destroy-closes s boot peers clients e hp hc =
    >>=-eq (defined s.engine.boot_sock) _ halted (ap (λ (o : Option ℕ). defined o halted) e)
    ∙ (>>=-eq (close_all s.engine.peer_node) _ without_boot
          (close_all-Socks s.engine.peer_node peers without_boot hp)
        ∙ close_all-Socks s.engine.client_node clients
            (record { engine = stopped s.engine; calls = closes peers (close boot ∷ s.calls) }) hc)
  where
    halted : World
    halted = record s { engine = stopped s.engine }

    without_boot : World
    without_boot = record { engine = stopped s.engine; calls = close boot ∷ s.calls }
