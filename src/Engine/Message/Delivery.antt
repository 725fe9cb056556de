-- ===== src/Engine/Message/Delivery.antt =====
-- What one engine sends as what another receives: the bytes that a run sends last on a socket.
use ebc_node.Base.{ℕ, ◌≡◌, refl, ◌≢◌, Option, none, some, List, [], ◌∷◌, arith, ◌==◌, if◌then◌else◌}
use mathlib.Core.List.{Memᴰ}
use mathlib.Core.List.Memᴰ.{head, tail}
use ebc_node.Engine.World.{World, M, Call, send}
use ebc_node.Engine.Message.Requests.{sends}

abbrev bytes_on : ℕ → Call → Option (List ℕ)
bytes_on k (send s bytes) = if s == k then some bytes else none
bytes_on k _ = none

abbrev pub last_sent : ℕ → List Call → Option (List ℕ)
last_sent k [] = none
last_sent k (c ∷ calls) =
    let earlier = last_sent k calls in
    elim (bytes_on k c) [ none ↦ earlier | some bytes ↦ some bytes ]

-- A run that is undefined sends nothing.
abbrev pub sent_by : ℕ → M (Unit {0}) → World → Option (List ℕ)
sent_by k run s = elim (run s) [ none ↦ none | some (r, s') ↦ last_sent k s'.calls ]

pub sent_by-run :
    (k : ℕ) (run : M (Unit {0})) (s s' : World)
    → run s ≡ some (tt, s')
    → sent_by k run s ≡ last_sent k s'.calls
sent_by-run k run s s' h = rw (h, sent_by) refl

pub last_sent-here :
    (k : ℕ) (bytes : List ℕ) (calls : List Call) → last_sent k (send k bytes ∷ calls) ≡ some bytes
last_sent-here k bytes calls = ground arith

pub last_sent-other :
    (k s : ℕ) (bytes : List ℕ) (calls : List Call)
    → s ≢ k
    → last_sent k (send s bytes ∷ calls) ≡ last_sent k calls
last_sent-other k s bytes calls h = ground (arith, h)

-- One message to each of the sockets: the last on any of them is that message.
last_sent-kept :
    (k : ℕ) (notice : List ℕ) (ss : List ℕ) (calls : List Call)
    → last_sent k calls ≡ some notice
    → last_sent k (sends notice ss calls) ≡ some notice
last_sent-kept k notice [] calls h = h
last_sent-kept k notice (s ∷ ss) calls h =
    last_sent-kept k notice ss (send s notice ∷ calls) (ground (arith, h))

pub last_sent-sends :
    (k : ℕ) (notice : List ℕ) (ss : List ℕ) (calls : List Call)
    → Memᴰ k ss
    → last_sent k (sends notice ss calls) ≡ some notice
last_sent-sends k notice [] calls m = elim m [ ]
last_sent-sends k notice (s ∷ ss) calls (head e) =
    last_sent-kept k notice ss (send s notice ∷ calls) (ground (arith, e))
last_sent-sends k notice (s ∷ ss) calls (tail m) =
    last_sent-sends k notice ss (send s notice ∷ calls) m
