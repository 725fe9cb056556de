-- ===== src/Engine/Kept.antt =====
-- Properties of the engine and of the calls that it made, and what has to keep them for the threads
-- to do: the operations on the members of the engine, and the calls of UDT.
use ebc_node.Base.{ℕ, ◌≡◌, sym, ap, ◌∙◌, Bool, false, Option, some, List, ◌∷◌}
use mathlib.Core.Path.{subst}
use ebc_node.Node.{Node, NodeId}
use ebc_node.Engine.{
  Engine, SockIn, add_client_node, add_peer_node, del_client_node, del_peer_node, update_peer_node,
}
use ebc_node.Engine.World.{World, Udt, Call, close, epoll_remove}
use ebc_node.Engine.World.Rules.{Keeps, called}
use ebc_node.Engine.Punch.{start_punch}
use ebc_node.Engine.Punch.Sockets.{start_punch_settles}
use ebc_node.Engine.Client.{is_boot}
use ebc_node.Engine.Closed.{Handled, Served, Closed}

-- A call that closes nothing.
abbrev pub IsQuiet : Call → Type 0
IsQuiet (close sock) = ⊥
IsQuiet _ = Unit

-- A socket is taken out of the epoll set and closed, and the engine changes by `f`.
abbrev pub dropped : ℕ → (Engine → Engine) → World → World
dropped sock f s = record { engine = f s.engine; calls = close sock ∷ epoll_remove sock ∷ s.calls }

-- The state with another engine.
abbrev pub with_engine : Engine → World → World
with_engine e s = record s { engine = e }

-- What a message does.
pub record OnMessages (udt : Udt) (P : World → Type 0) : Type 0 where
  pub calls : (c : Call) → IsQuiet c → (s : World) → P s → P (called c s)
  pub punches : (ip port : ℕ) → Keeps P (start_punch udt ip port)
  pub adds_client :
      (memory id : List ℕ) (addr : SockIn) (nat sock : ℕ) (s : World) (e : Engine)
      → P s
      → add_client_node memory id addr nat sock s.engine ≡ some e
      → P (with_engine e s)
  pub adds_peer :
      (memory id : List ℕ) (ip port_nat sock : ℕ) (s : World) (e : Engine)
      → P s
      → add_peer_node memory id ip port_nat sock s.engine ≡ some e
      → P (with_engine e s)

-- What the thread of the server does besides, on sockets that `Q` holds of.
pub record OnServer (udt : Udt) (Q : ℕ → Type 0) (P : World → Type 0) : Type 0 where
  pub handled : OnMessages udt P
  pub drops_client :
      (sock : ℕ) (s : World) → Q sock → P s → P (dropped sock (del_client_node sock) s)

-- What the thread of the client does besides.
pub record OnClient (udt : Udt) (P : World → Type 0) : Type 0 where
  pub handled : OnMessages udt P
  pub drops_peer :
      (sock : ℕ) (s : World)
      → is_boot sock s.engine.boot_sock ≡ false
      → P s
      → P (dropped sock (del_peer_node sock) s)
  pub updates_peer :
      (id : NodeId) (node : Node) (s : World)
      → P s
      → P (with_engine (update_peer_node id node s.engine) s)
  pub indexes :
      (m : List (ℕ × NodeId)) (s : World)
      → P s
      → P (with_engine (record s.engine { sock_id_pair = m }) s)

-- What `startServer` does.
pub record OnStart (P : World → Type 0) : Type 0 where
  pub calls : (c : Call) → IsQuiet c → (s : World) → P s → P (called c s)
  pub serves :
      (b c : Bool) (s : World)
      → P s
      → P (with_engine (record s.engine { is_server = b; server_thread_flag = c }) s)

-- What `startClient` and the destructor do.
pub record OnEnds (P : World → Type 0) : Type 0 where
  pub calls : (c : Call) (s : World) → P s → P (called c s)
  pub sets_boot :
      (o : Option ℕ) (s : World) → P s → P (with_engine (record s.engine { boot_sock = o }) s)
  pub sets_local :
      (a : SockIn) (b : Bool) (s : World)
      → P s
      → P (with_engine (record s.engine { local_addr = a; boot_thread_flag = b }) s)
  pub stops :
      (b c : Bool) (s : World)
      → P s
      → P (with_engine (record s.engine { boot_thread_flag = b; server_thread_flag = c }) s)

-- A property of the engine alone is kept by every call.
abbrev pub Of : (Engine → Type 0) → World → Type 0
Of Q s = Q s.engine

module _ (udt : Udt) (Q : Engine → Type 0) where
  start_punch-Keeps : (ip port : ℕ) → Keeps (Of Q) (start_punch udt ip port)
  start_punch-Keeps ip port s s' a p e =
      let (r, t, run, same, _) = start_punch_settles udt ip port s in
      subst Q (sym same ∙ ap (λ (x : World). x.engine) (result (sym run ∙ e))) p
    where
      result :
          {r : Option ℕ} {t : World}
          → ◌≡◌ {A = Option (Option ℕ × World)} (some (r, t)) (some (a, s'))
          → t ≡ s'
      result q = cc

  pub Of-OnMessages : Handled Q → OnMessages udt (Of Q)
  Of-OnMessages h = record {
    calls = λ c quiet s q. q;
    punches = start_punch-Keeps;
    adds_client = λ memory id addr nat sock s. h.adds_client memory id addr nat sock s.engine;
    adds_peer = λ memory id ip port_nat sock s. h.adds_peer memory id ip port_nat sock s.engine;
  }

  pub Of-OnServer : Served Q → OnServer udt (λ sock. Unit) (Of Q)
  Of-OnServer h = record {
    handled = Of-OnMessages h.handled;
    drops_client = λ sock s known. h.dels_client sock s.engine;
  }

  pub Of-OnClient : Closed Q → OnClient udt (Of Q)
  Of-OnClient h = record {
    handled = Of-OnMessages h.served.handled;
    drops_peer = λ sock s other. h.dels_peer sock s.engine;
    updates_peer = λ id node s. h.updates_peer id node s.engine;
    indexes = λ m s. h.indexes m s.engine;
  }

  pub Of-OnStart : Closed Q → OnStart (Of Q)
  Of-OnStart h = record { calls = λ c quiet s q. q; serves = λ b c s. h.serves b c s.engine }

  pub Of-OnEnds : Closed Q → OnEnds (Of Q)
  Of-OnEnds h = record {
    calls = λ c s q. q;
    sets_boot = λ o s. h.sets_boot o s.engine;
    sets_local = λ a b s. h.sets_local a b s.engine;
    stops = λ b c s. h.stops b c s.engine;
  }
