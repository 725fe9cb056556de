-- ===== src/Engine/Punch/Sockets.antt =====
-- `startPunch` loses no socket: the one that it creates is closed, or registered and returned.
use ebc_node.Base.{
  true, false, ℕ, ◌%◌, ◌^◌, ◌≡◌, refl, ◌∙◌, ◌⊎◌, inl, inr, Option, none, some, List, [], ◌∷◌,
  Bool-cases, Option-cases,
}
use ebc_node.Engine.World.{
  Udt, World, Call, SockOption, udt_sndsyn, udt_rcvsyn, udt_sndbuf, udt_rcvbuf, udt_rendezvous,
  socket, setsockopt, bind, connect, close, epoll_add, >>=-eq,
}
use ebc_node.Engine.{SockIn}
use ebc_node.Node.{id_key, sock_key}
use ebc_node.Engine.Punch.{start_punch, set_udt_opt, all_events}
use ebc_node.Engine.Punch.{set_options, punch_connect, punch_bind}

-- The latest call.
abbrev pub latest : World → Option Call
latest s = elim s.calls [ [] ↦ none | c ∷ cs ↦ some c ]

pub set_options_lem :
    (udt : Udt) (sock : ℕ) (os : List SockOption) (s : World)
    → (calls : List Call) × (set_options udt sock os s ≡ some (tt, record s { calls = calls }))
unfolding set_options
set_options_lem udt sock [] s = (s.calls, refl)
set_options_lem udt sock (o ∷ os) s =
    elim (Bool-cases (udt.succeeds (setsockopt sock o ∷ s.calls))) [
      | inl done ↦
          let (calls, e) =
            set_options_lem udt sock os (record s { calls = setsockopt sock o ∷ s.calls }) in
          (calls, rw (done, set_options) e)
      | inr refused ↦ (setsockopt sock o ∷ s.calls, rw (refused, set_options))
    ]

-- What can become of a socket: closed after a call that failed, with no result; or put into the epoll set
-- after one that did not, and returned.
abbrev pub IsSettled : Udt → ℕ → Option ℕ → World → Type 0
IsSettled udt sock r s =
    (before : List Call) × (((r ≡ none)
        × (udt.succeeds before ≡ false)
        × (s.calls ≡ close sock ∷ before))
      ⊎ ((r ≡ some sock)
          × (udt.succeeds before ≡ true)
          × (s.calls ≡ epoll_add sock all_events ∷ before)))

punch_connect_lem :
    (udt : Udt) (sock : ℕ) (peer : SockIn) (s : World)
    → (r : Option ℕ) × (s' : World) × (punch_connect udt sock peer s ≡ some (r, s'))
      × (s'.engine ≡ s.engine)
      × IsSettled udt sock r s'
unfolding punch_connect
punch_connect_lem udt sock peer s = elim (Bool-cases (udt.succeeds (connect sock peer ∷ s.calls))) [
  | inl linked ↦ (
    some sock,
    record s { calls = epoll_add sock all_events ∷ connect sock peer ∷ s.calls },
    rw (linked, punch_connect),
    refl,
    (connect sock peer ∷ s.calls, inr (refl, linked, refl)),
  )
  | inr refused ↦ (
    none,
    record s { calls = close sock ∷ connect sock peer ∷ s.calls },
    rw (refused, punch_connect),
    refl,
    (connect sock peer ∷ s.calls, inl (refl, refused, refl)),
  )
]

punch_bind_lem :
    (udt : Udt) (sock : ℕ) (peer : SockIn) (s : World)
    → (r : Option ℕ) × (s' : World) × (punch_bind udt sock peer s ≡ some (r, s'))
      × (s'.engine ≡ s.engine)
      × IsSettled udt sock r s'
unfolding punch_bind set_udt_opt
punch_bind_lem udt sock peer s =
    let local = s.engine.local_addr in
    let (calls, options) =
      set_options_lem udt sock (udt_sndsyn ∷ udt_rcvsyn ∷ udt_sndbuf ∷ udt_rcvbuf ∷ [])
        (record s { calls = setsockopt sock udt_rendezvous ∷ s.calls }) in
    let start : World = record s { calls = setsockopt sock udt_rendezvous ∷ s.calls } in
    elim (Bool-cases (udt.succeeds (bind sock local ∷ calls))) [
      | inl bound ↦
          let (r, s', run, same, settled) =
            punch_connect_lem udt sock peer (record s { calls = bind sock local ∷ calls }) in
          (r, s', >>=-eq (set_udt_opt udt sock) _ start options ∙ rw bound run, same, settled)
      | inr refused ↦ (
        none,
        record s { calls = close sock ∷ bind sock local ∷ calls },
        >>=-eq (set_udt_opt udt sock) _ start options ∙ rw refused,
        refl,
        (bind sock local ∷ calls, inl (refl, refused, refl)),
      )
    ]

-- `startPunch` is defined whatever UDT answers, and leaves the engine as it is. Either UDT gave no
-- socket, nothing else was called and the result is INVALID_SOCK; or the socket that it gave was closed by
-- the latest call, just after a call that failed, and the result is INVALID_SOCK; or that socket is the
-- result, and the latest call registered it, just after a call that did not fail.
pub start_punch_settles :
    (udt : Udt) (ip port : ℕ) (s : World)
    → (r : Option ℕ) × (s' : World) × (start_punch udt ip port s ≡ some (r, s'))
      × (s'.engine ≡ s.engine)
      × (((udt.a_socket (socket ∷ s.calls) ≡ none) × (r ≡ none) × (s'.calls ≡ socket ∷ s.calls))
          ⊎ ((sock : ℕ) × (udt.a_socket (socket ∷ s.calls) ≡ some sock) × IsSettled udt sock r s'))
unfolding start_punch
start_punch_settles udt ip port s = elim (Option-cases (udt.a_socket (socket ∷ s.calls))) [
  | inl e ↦
      (none, record s { calls = socket ∷ s.calls }, rw (e, start_punch), refl, inl (e, refl, refl))
  | inr (sock, e) ↦
      let (r, s', run, same, settled) =
        punch_bind_lem udt sock (record { sin_addr = ip; sin_port = port % 2 ^ 16 })
          (record s { calls = socket ∷ s.calls }) in
      (r, s', rw (e, start_punch) run, same, inr (sock, e, settled))
]
