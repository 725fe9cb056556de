-- ===== src/Engine/System/Kept.antt =====
-- A property that the threads keep is kept by every step, and so along every run.
use ebc_node.Base.{ℕ}
use ebc_node.Engine.World.{Udt, World}
use ebc_node.Engine.{Engine}
use ebc_node.Engine.Closed.{Closed}
use ebc_node.Engine.Kept.{
  OnServer, OnClient, OnStart, Of, Of-OnServer, Of-OnClient, Of-OnStart, Of-OnEnds,
}
use ebc_node.Engine.Client.Keeps
use ebc_node.Engine.Server.Keeps as ServerKeeps
use ebc_node.Engine.System.{
  Step, Reach, starts_client, starts_server, destroys, greets, client_errs, client_writes,
  client_reads, server_errs, server_reads, here, next,
}
use ebc_node.Engine.System.Start.{start_server-Keeps, start_client-Keeps, destroy-Keeps}
use ebc_node.Wire.{Wire}

-- Steps of a running engine: neither `startClient` nor the destructor is called, and the server's
-- thread is told of sockets that `Q` holds of.
abbrev pub IsRunning :
    {w : Wire} {udt : Udt} {s s' : World} → (ℕ → Type 0) → Step w udt s s' → Type 0
IsRunning Q (starts_client b e) = ⊥
IsRunning Q (destroys e) = ⊥
IsRunning Q (server_errs sock e) = Q sock
IsRunning Q (server_reads server sock e) = Q sock
IsRunning Q _ = Unit

abbrev pub AllRunning :
    {w : Wire} {udt : Udt} {s s' : World} → (ℕ → Type 0) → Reach w udt s s' → Type 0
AllRunning Q here = Unit
AllRunning Q (next r st) = AllRunning Q r × IsRunning Q st

module _ (Q : ℕ → Type 0) (P : World → Type 0) (w : Wire) (udt : Udt) where
  module _ (serves : OnServer udt Q P) (links : OnClient udt P) (starts : OnStart P) where
    pub IsRunning-keeps : {s s' : World} (st : Step w udt s s') → IsRunning Q st → P s → P s'
    IsRunning-keeps {s} {s'} (starts_client b e) on p = absurd on
    IsRunning-keeps {s} {s'} (destroys e) on p = absurd on
    IsRunning-keeps {s} {s'} (starts_server r e) on p = start_server-Keeps P starts udt s s' r p e
    IsRunning-keeps {s} {s'} (greets hello e) on p =
        Keeps.hello_round-Keeps P udt links w hello s s' tt p e
    IsRunning-keeps {s} {s'} (client_errs sock e) on p =
        Keeps.on_error-Keeps P udt links sock s s' tt p e
    IsRunning-keeps {s} {s'} (client_writes server sock b e) on p =
        Keeps.on_writable-Keeps P udt links w server sock s s' b p e
    IsRunning-keeps {s} {s'} (client_reads server sock b e) on p =
        Keeps.on_readable-Keeps P udt links w server sock s s' b p e
    IsRunning-keeps {s} {s'} (server_errs sock e) on p =
        ServerKeeps.on_error-Keeps Q P udt serves sock on s s' tt p e
    IsRunning-keeps {s} {s'} (server_reads server sock e) on p =
        ServerKeeps.on_readable-Keeps Q P udt serves w server sock on s s' tt p e

    pub AllRunning-keeps : {s s' : World} (r : Reach w udt s s') → AllRunning Q r → P s → P s'
    AllRunning-keeps here on p = p
    AllRunning-keeps (next r st) (before, on) p =
        IsRunning-keeps st on (AllRunning-keeps r before p)

-- A property that the members of the engine are closed under holds along every run.
module _ (P : Engine → Type 0) (h : Closed P) (w : Wire) (udt : Udt) where
  running :
      {s s' : World} (st : Step w udt s s') → IsRunning (λ sock. Unit) st → P s.engine → P s'.engine
  running =
      IsRunning-keeps (λ sock. Unit) (Of P) w udt (Of-OnServer udt P h.served) (Of-OnClient udt P h)
        (Of-OnStart udt P h)

  Step-keeps : {s s' : World} → Step w udt s s' → P s.engine → P s'.engine
  Step-keeps {s} {s'} (starts_client b e) p =
      start_client-Keeps (Of P) (Of-OnEnds udt P h) udt s s' b p e
  Step-keeps {s} {s'} (destroys e) p = destroy-Keeps (Of P) (Of-OnEnds udt P h) s s' tt p e
  Step-keeps {s} {s'} (starts_server r e) p = running (starts_server r e) tt p
  Step-keeps {s} {s'} (greets hello e) p = running (greets hello e) tt p
  Step-keeps {s} {s'} (client_errs sock e) p = running (client_errs sock e) tt p
  Step-keeps {s} {s'} (client_writes server sock b e) p =
      running (client_writes server sock b e) tt p
  Step-keeps {s} {s'} (client_reads server sock b e) p = running (client_reads server sock b e) tt p
  Step-keeps {s} {s'} (server_errs sock e) p = running (server_errs sock e) tt p
  Step-keeps {s} {s'} (server_reads server sock e) p = running (server_reads server sock e) tt p

  pub Reach-keeps : {s s' : World} → Reach w udt s s' → P s.engine → P s'.engine
  Reach-keeps here p = p
  Reach-keeps (next r st) p = Step-keeps st (Reach-keeps r p)
