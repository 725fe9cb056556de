-- ===== src/Engine/World.antt =====
-- The engine in its environment: the calls that it makes of UDT (include/udt.h), in order, and the
-- answers, which may depend on everything that was called before.
pub mod Rules
pub mod Sends
pub mod Lasts
use ebc_node.Base.{
  ℕ, zero, suc, ◌+◌, ◌-◌, ◌*◌, ◌/◌, ◌%◌, ◌^◌, ◌≤◌, ◌<◌, ◌≡◌, refl, sym, ap, ◌∙◌, ◌≢◌, ◌↔◌, ◌⊎◌, inl,
  inr, Bool, true, false, not, ◌&&◌, ◌||◌, Option, none, some, List, [], ◌∷◌, ◌++◌, map, arith,
  dec_lt, ℕ_discrete, ltb, leb, ◌==◌, if◌then◌else◌, ltb→lt, ==_iff, Bool-cases, Option-cases,
  length, get_elem?, take, drop, replicate, All, length-append, length-take, length-drop,
  take-append, drop-append, take_all,
}
use ebc_node.Engine.{Engine, SockIn}

-- `UDTSTATUS`.
pub data UdtStatus : Type 0 where
  init opened listening connecting connected broken closing closed nonexist : UdtStatus

-- `UDT_EPOLL_IN`, `UDT_EPOLL_OUT` and `UDT_EPOLL_ERR`, of which a registration is a set.
pub record Events : Type 0 where
  pub on_in : Bool
  pub on_out : Bool
  pub on_err : Bool

-- `UDTOpt`.
pub data SockOption : Type 0 where
  udt_mss udt_sndsyn udt_rcvsyn udt_cc udt_fc udt_sndbuf udt_rcvbuf udt_linger : SockOption
  udp_sndbuf udp_rcvbuf udt_maxmsg udt_msgttl udt_rendezvous udt_sndtimeo : SockOption
  udt_rcvtimeo udt_reuseaddr udt_maxbw udt_state udt_event udt_snddata udt_rcvdata : SockOption

-- The functions of the library that the program calls, with the arguments that matter: an epoll
-- descriptor, the level 0 and the sizes of the arguments are left out.
pub data Call : Type 0 where
  socket getsockname : Call
  setsockopt : ℕ → SockOption → Call
  bind connect : ℕ → SockIn → Call
  getsockopt : ℕ → SockOption → Call
  listen accept getpeername close : ℕ → Call
  recv : ℕ → ℕ → Call
  send : ℕ → List ℕ → Call
  epoll_add : ℕ → Events → Call
  epoll_remove : ℕ → Call
  epoll_create epoll_wait : Call

-- What `epoll_wait` returns: a number below -1, -1, 0 or the number of the events that are there.
pub data WaitRet : Type 0 where
  below minus_one nothing events : WaitRet

-- That, and the three sets after the call.
pub record Waited : Type 0 where
  pub ret : WaitRet
  pub readfds : List ℕ
  pub writefds : List ℕ
  pub errfds : List ℕ

-- A socket as the `int` that it is, by its bits: `INVALID_SOCK` is -1.
abbrev pub socket_value : Option ℕ → ℕ
socket_value none = 2 ^ 32 - 1
socket_value (some sock) = sock

-- The library's answers. Its -1, and `INVALID_SOCK`, are `none` or `false`; `recv` gives at most as
-- many bytes as were asked for. `memory` is what a block from `malloc` holds.
pub record Udt : Type 0 where
  pub a_socket : List Call → Option ℕ
  pub succeeds : List Call → Bool
  pub a_name : List Call → SockIn
  pub a_state : List Call → UdtStatus
  pub a_count : List Call → Option ℕ
  pub waited : List Call → Waited
  pub received : List Call → Option (List ℕ)
  pub memory : List Call → List ℕ

-- How a thread ends: by `return`, or because its flag was cleared; `going` is a thread that has not
-- ended in the rounds that were looked at.
pub data Ended : Type 0 where
  returned cleared going : Ended

-- The calls made so far, the latest first.
pub record World : Type 0 where
  pub engine : Engine
  pub calls : List Call

-- `none` is undefined behaviour of the program, such as reading behind the end of a buffer.
abbrev pub M {ℓ} : Type ℓ → Type ℓ
M A = World → Option (A × World)

infixl 5 ◌>>=◌ ◌>>◌
abbrev pub ◌>>=◌ {ℓ κ} : {A : Type ℓ} {B : Type κ} → M A → (A → M B) → M B
◌>>=◌ m f s = elim (m s) [ none ↦ none | some (a, s') ↦ f a s' ]

abbrev pub ◌>>◌ {ℓ κ} : {A : Type ℓ} {B : Type κ} → M A → M B → M B
m >> k = m >>= λ _. k

abbrev pub return {ℓ} : {A : Type ℓ} → A → M A
return a s = some (a, s)

abbrev pub fault {ℓ} : {A : Type ℓ} → M A
fault s = none

-- A value that has to be there, as of an array that is read in range.
abbrev pub defined {ℓ} : {A : Type ℓ} → Option A → M A
defined none = fault
defined (some a) = return a

-- A branch on whether there is a value.
abbrev pub if_some {ℓ κ} : {A : Type ℓ} {B : Type κ} → Option A → (A → M B) → M B → M B
if_some none f m = m
if_some (some a) f m = f a

abbrev pub ask {ℓ} : {A : Type ℓ} → Call → (List Call → A) → M A
ask c answer s = some (answer (c ∷ s.calls), record s { calls = c ∷ s.calls })

abbrev pub call : Call → M (Unit {0})
call c = ask c (λ _. tt)

abbrev pub get : M Engine
get s = some (s.engine, s)

abbrev pub modify : (Engine → Engine) → M (Unit {0})
modify f s = some (tt, record s { engine = f s.engine })

-- A step of the tables that may be undefined.
abbrev pub update : (Engine → Option Engine) → M (Unit {0})
update f s = elim (f s.engine) [ none ↦ none | some e ↦ some (tt, record s { engine = e }) ]

-- A further answer to the latest call.
abbrev pub look {ℓ} : {A : Type ℓ} → (List Call → A) → M A
look answer s = some (answer s.calls, s)

-- What `malloc` finds.
abbrev pub fresh : Udt → M (List ℕ)
fresh udt = look udt.memory

-- `UDT::send(sock, buf, n, 0)` reads `n` bytes of the buffer.
abbrev pub send_buffer : ℕ → List ℕ → ℕ → M (Unit {0})
send_buffer sock buffer n =
    if leb n (length buffer) then call (send sock (take n buffer)) else fault

-- One step of a sequence, by the step's result.
pub >>=-eq {ℓ κ} :
    {A : Type ℓ} {B : Type κ} (m : M A) (f : A → M B) (s : World) {a : A} {s' : World}
    → m s ≡ some (a, s')
    → (m >>= f) s ≡ f a s'
>>=-eq m f s e = rw (e, ◌>>=◌)

-- Inversion of a sequence that is defined.
pub >>=-eq-some {ℓ κ} :
    {A : Type ℓ} {B : Type κ} (m : M A) (f : A → M B) (s : World) {b : B} {s'' : World}
    → (m >>= f) s ≡ some (b, s'')
    → (a : A) × (s' : World) × (m s ≡ some (a, s')) × (f a s' ≡ some (b, s''))
>>=-eq-some {A} {B} m f s {b} {s''} h = go (m s) refl h
  where
    go :
        (r : Option (A × World))
        → m s ≡ r
        → (let x : Option (B × World) = elim r [ none ↦ none | some (a, s') ↦ f a s' ] in
            x ≡ some (b, s''))
        → (a : A) × (s' : World) × (m s ≡ some (a, s')) × (f a s' ≡ some (b, s''))
    go none e h = cc
    go (some (a, s')) e h = (a, s', e, h)
