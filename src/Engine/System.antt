-- ===== src/Engine/System.antt =====
-- The engine as a whole: the calls of its user and the work of its three threads, in any order. A
-- step is one call, or what a thread does for one socket, or one round of greetings; what is reported
-- by `epoll_wait`, and in what order, is left open, and so is the server's address.
pub mod Waiting
pub mod Start
pub mod Clients
pub mod Peers
pub mod Kept
pub mod Orderly
pub mod Closings
pub mod Invariant
pub mod Serves
pub mod Meeting
use ebc_node.Base.{
  ℕ, zero, suc, ◌+◌, ◌-◌, ◌*◌, ◌/◌, ◌%◌, ◌^◌, ◌≤◌, ◌<◌, ◌≡◌, refl, sym, ap, ◌∙◌, ◌≢◌, ◌↔◌, ◌⊎◌, inl,
  inr, Bool, true, false, not, ◌&&◌, ◌||◌, Option, none, some, List, [], ◌∷◌, ◌++◌, map, arith,
  dec_lt, ℕ_discrete, ltb, leb, ◌==◌, if◌then◌else◌, ltb→lt, ==_iff, Bool-cases, Option-cases,
  length, get_elem?, take, drop, replicate, All, length-append, length-take, length-drop,
  take-append, drop-append, take_all,
}
use ebc_node.Wire.{Wire}
use ebc_node.Engine.{SockIn}
use ebc_node.Engine.World.{Udt, World}
use ebc_node.Engine.Client
use ebc_node.Engine.Client.{start_client, on_writable, hello_round, destroy}
use ebc_node.Engine.Server
use ebc_node.Engine.Server.{start_server}

pub data Step (w : Wire) (udt : Udt) (s s' : World) : Type 0 where
  starts_client : (b : Bool) → start_client udt s ≡ some (b, s') → Step w udt s s'
  starts_server : (r : Option ℕ) → start_server udt s ≡ some (r, s') → Step w udt s s'
  destroys : destroy s ≡ some (tt, s') → Step w udt s s'
  greets : (hello : List ℕ) → hello_round w hello s ≡ some (tt, s') → Step w udt s s'
  client_errs : (sock : ℕ) → Client.on_error udt sock s ≡ some (tt, s') → Step w udt s s'
  client_writes :
      (server : SockIn) (sock : ℕ) (on : Bool)
      → on_writable w udt server sock s ≡ some (on, s')
      → Step w udt s s'
  client_reads :
      (server : SockIn) (sock : ℕ) (on : Bool)
      → Client.on_readable w udt server sock s ≡ some (on, s')
      → Step w udt s s'
  server_errs : (sock : ℕ) → Server.on_error udt sock s ≡ some (tt, s') → Step w udt s s'
  server_reads :
      (server sock : ℕ) → Server.on_readable w udt server sock s ≡ some (tt, s') → Step w udt s s'

pub data Reach (w : Wire) (udt : Udt) (s : World) : World → Type 0 where
  here : Reach w udt s s
  next : {t u : World} → Reach w udt s t → Step w udt t u → Reach w udt s u
