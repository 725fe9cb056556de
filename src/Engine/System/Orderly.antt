-- ===== src/Engine/System/Orderly.antt =====
-- What it is for sockets to be closed in order, and that `startPunch` does.
use ebc_node.Base.{
  ℕ, ◌%◌, ◌^◌, ◌≡◌, ◌≢◌, refl, sym, ap, ◌∙◌, ◌⊎◌, inl, inr, Option, none, some, List, [], ◌∷◌,
  Option-cases,
}
use ebc_node.Engine.{SockIn}
use ebc_node.Node.{id_key, sock_key}
use ebc_node.Engine.World.{
  Udt, World, Call, SockOption, udt_sndsyn, udt_rcvsyn, udt_sndbuf, udt_rcvbuf, udt_rendezvous,
  socket, setsockopt, bind, connect, close, epoll_add, epoll_remove, ◌>>◌, return, ask, call, get,
  if_some,
}
use ebc_node.Engine.World.Rules.{
  Leads, Keeps, called, >>=-Leads, ask-Leads, if-Leads, return-Keeps, >>=-Keeps, ask-Keeps,
  if-Keeps, get-Keeps,
}
use ebc_node.Engine.Punch.{
  set_options, set_udt_opt, start_punch, punch_bind, punch_connect, all_events,
}
use ebc_node.Engine.Kept.{IsQuiet}

-- `sock` is a socket that UDT just made, and that was only set up since.
abbrev IsNew : Udt → ℕ → List Call → Type 0
IsNew udt sock (socket ∷ before) = udt.a_socket (socket ∷ before) ≡ some sock
IsNew udt sock (setsockopt other o ∷ before) = (other ≡ sock) × IsNew udt sock before
IsNew udt sock (bind other addr ∷ before) = (other ≡ sock) × IsNew udt sock before
IsNew udt sock (connect other addr ∷ before) = (other ≡ sock) × IsNew udt sock before
IsNew udt sock _ = ⊥

-- The latest call took `sock` out of the epoll set, and it is not the socket to the server.
abbrev IsTakenOut : ℕ → ℕ → List Call → Type 0
IsTakenOut boot sock (epoll_remove other ∷ before) = (other ≡ sock) × (sock ≢ boot)
IsTakenOut boot sock _ = ⊥

-- Each socket that is closed is one or the other.
abbrev pub IsOrderly : Udt → ℕ → List Call → Type 0
IsOrderly udt boot [] = Unit
IsOrderly udt boot (close sock ∷ before) =
    (IsTakenOut boot sock before ⊎ IsNew udt sock before) × IsOrderly udt boot before
IsOrderly udt boot (_ ∷ before) = IsOrderly udt boot before

module _ (udt : Udt) (boot : ℕ) where
  abbrev pub Inv : World → Type 0
  Inv s = (s.engine.boot_sock ≡ some boot) × IsOrderly udt boot s.calls

  pub Inv-quiet : (c : Call) → IsQuiet c → (s : World) → Inv s → Inv (called c s)
  Inv-quiet (close sock) quiet s i = absurd quiet
  Inv-quiet _ quiet s i = i

  -- That, with a socket that is to be closed or registered.
  module _ (sock : ℕ) where
    abbrev With : World → Type 0
    With s = Inv s × IsNew udt sock s.calls

    set_options-With : (os : List SockOption) → Keeps With (set_options udt sock os)
    unfolding set_options
    set_options-With [] = return-Keeps With tt
    set_options-With (o ∷ os) =
        >>=-Keeps With (ask (setsockopt sock o) udt.succeeds) _
          (ask-Keeps With (setsockopt sock o) udt.succeeds (λ s (i, n). (i, (refl, n))))
          (λ done.
            if-Keeps With done (set_options udt sock os) (return tt) (set_options-With os)
              (return-Keeps With tt))

    -- The end of a socket that could not be set up.
    closed-Inv : Leads With Inv (call (close sock) >> return {A = Option ℕ} none)
    closed-Inv =
        >>=-Leads With Inv Inv (call (close sock)) _
          (ask-Leads With Inv (close sock) (λ _. tt) (λ s ((b, o), n). (b, (inr n, o))))
          (λ _. return-Keeps Inv none)

    punch_connect-Inv : (peer : SockIn) → Leads With Inv (punch_connect udt sock peer)
    unfolding punch_connect
    punch_connect-Inv peer =
        >>=-Leads With With Inv (ask (connect sock peer) udt.succeeds) _
          (ask-Keeps With (connect sock peer) udt.succeeds (λ s (i, n). (i, (refl, n))))
          (λ linked.
            if-Leads With Inv linked _ _
              (>>=-Leads With Inv Inv (call (epoll_add sock all_events)) _
                (ask-Leads With Inv (epoll_add sock all_events) (λ _. tt) (λ s (i, n). i))
                (λ _. return-Keeps Inv (some sock)))
              closed-Inv)

    punch_bind-Inv : (peer : SockIn) → Leads With Inv (punch_bind udt sock peer)
    unfolding punch_bind set_udt_opt
    punch_bind-Inv peer =
        >>=-Leads With With Inv (call (setsockopt sock udt_rendezvous)) _
          (ask-Keeps With (setsockopt sock udt_rendezvous) (λ _. tt) (λ s (i, n). (i, (refl, n))))
          (λ _.
            >>=-Leads With With Inv (set_udt_opt udt sock) _
              (set_options-With (udt_sndsyn ∷ udt_rcvsyn ∷ udt_sndbuf ∷ udt_rcvbuf ∷ []))
              (λ _. >>=-Leads With With Inv get _ (get-Keeps With) (λ engine.
                >>=-Leads With With Inv (ask (bind sock engine.local_addr) udt.succeeds) _
                  (ask-Keeps With (bind sock engine.local_addr) udt.succeeds
                    (λ s (i, n). (i, (refl, n))))
                  (λ bound.
                    if-Leads With Inv bound (punch_connect udt sock peer) _ (punch_connect-Inv peer)
                      closed-Inv))))

  pub start_punch-Inv : (ip port : ℕ) → Keeps Inv (start_punch udt ip port)
  unfolding start_punch
  start_punch-Inv ip port s s' a i e = elim (Option-cases (udt.a_socket (socket ∷ s.calls))) [
    | inl lacks ↦ return-Keeps Inv none (called socket s) s' a i (sym (ap branch lacks) ∙ e)
    | inr (sock, made) ↦
        punch_bind-Inv sock peer (called socket s) s' a (i, made) (sym (ap branch made) ∙ e)
  ]
    where
      peer : SockIn
      peer = record { sin_addr = ip; sin_port = port % 2 ^ 16 }

      branch : Option ℕ → Option (Option ℕ × World)
      branch o = if_some o (λ sock. punch_bind udt sock peer) (return none) (called socket s)
