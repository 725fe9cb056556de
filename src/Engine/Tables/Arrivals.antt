-- ===== src/Engine/Tables/Arrivals.antt =====
-- src/netengine.cpp: the tables up to what they answer, and after clients that arrive in any order.
use ebc_node.Base.{
  ℕ, ◌≡◌, refl, sym, ap, ◌∙◌, ◌≢◌, inl, inr, Option, none, some, ◌==◌, ==_iff, Bool-cases,
  Option-cases, if◌then◌else◌, List, [], ◌∷◌, arith, All,
}
use mathlib.Core.Path.{subst}
use mathlib.Core.Quot
use mathlib.Core.Quot.{Quot, Quot-set}
use mathlib.Core.List.{Permᴰ}
use mathlib.Core.List.Permᴰ.{nil, cons, swap, trans}
use ebc_node.Base.StdMap.{find, insert, assign, find-insert, find-assign}
use ebc_node.Node.{Node, NodeId, id_key, sock_key, ids_eq, ids_eq_iff}
use ebc_node.Engine.{Engine, put_client}
use ebc_node.Engine.Tables.{SameTables}

-- A client with the node that is entered for it and its socket.
pub record Arrival : Type 0 where
  pub id : NodeId
  pub node : Node
  pub sock : ℕ

abbrev pub enter : Arrival → Engine → Engine
enter a = put_client a.id a.node a.sock

abbrev pub enter_all : List Arrival → Engine → Engine
enter_all [] e = e
enter_all (a ∷ rest) e = enter_all rest (enter a e)

enter-SameTables :
    (a : Arrival) (e e' : Engine) → SameTables e e' → SameTables (enter a e) (enter a e')
unfolding put_client
enter-SameTables a e e' same = record {
  clients = λ k.
      rw
        (
          find-insert a.id k a.node e.client_node,
          find-insert a.id k a.node e'.client_node,
          same.clients a.id,
          same.clients k,
        )
        refl;
  peers = same.peers;
  socks = λ s.
      rw
        (
          find-assign a.sock s a.id e.sock_id_pair,
          find-assign a.sock s a.id e'.sock_id_pair,
          same.socks s,
        )
        refl;
}

-- Two clients under different ids and on different sockets.
abbrev pub Apart : Arrival → Arrival → Type 0
Apart a b = (a.id ≢ b.id) × (a.sock ≢ b.sock)

enter-swap :
    (a b : Arrival) (e : Engine)
    → Apart a b
    → SameTables (enter b (enter a e)) (enter a (enter b e))
unfolding put_client
enter-swap a b e (ids, socks) = record {
  clients = λ k.
      rw
        (
          find-insert b.id k b.node (insert a.id a.node e.client_node),
          find-insert a.id k a.node (insert b.id b.node e.client_node),
          find-insert a.id k a.node e.client_node,
          find-insert b.id k b.node e.client_node,
          find-insert a.id b.id a.node e.client_node,
          find-insert b.id a.id b.node e.client_node,
        )
        (ground (
          arith,
          ids_eq_iff k a.id,
          ids_eq_iff k b.id,
          ids_eq_iff b.id a.id,
          ids_eq_iff a.id b.id,
          ids,
        ));
  peers = λ k. refl;
  socks = λ s.
      rw
        (
          find-assign b.sock s b.id (assign a.sock a.id e.sock_id_pair),
          find-assign a.sock s a.id (assign b.sock b.id e.sock_id_pair),
          find-assign a.sock s a.id e.sock_id_pair,
          find-assign b.sock s b.id e.sock_id_pair,
        )
        (ground (arith, socks));
}

-- All of a list under different ids and on different sockets.
abbrev pub AllApart : List Arrival → Type 0
AllApart [] = Unit
AllApart (a ∷ rest) = All (Apart a) rest × AllApart rest

Apart-sym : (a b : Arrival) → Apart a b → Apart b a
Apart-sym a b (ids, socks) = ((λ e. ids (sym e)), (λ e. socks (sym e)))

-- A property of all members is one of all members in another order.
All-Permᴰ : {xs ys : List Arrival} (P : Arrival → Type 0) → Permᴰ xs ys → All P xs → All P ys
All-Permᴰ P nil h = h
All-Permᴰ P (cons e d) (p, h) = (subst P e p, All-Permᴰ P d h)
All-Permᴰ P (swap e e') (p, (q, h)) = (subst P e' q, (subst P e p, h))
All-Permᴰ P (trans d d') h = All-Permᴰ P d' (All-Permᴰ P d h)

AllApart-Permᴰ : {xs ys : List Arrival} → Permᴰ xs ys → AllApart xs → AllApart ys
AllApart-Permᴰ nil h = h
AllApart-Permᴰ (cons {b = b} {l₂ = ys} e d) (p, h) =
    (subst (λ (x : Arrival). All (Apart x) ys) e (All-Permᴰ _ d p), AllApart-Permᴰ d h)
AllApart-Permᴰ (swap {a = a} {b = b} {l = l} e e') ((ab, p), (q, h)) =
    subst AllApart (λ i. e' i ∷ (e i ∷ l)) ((Apart-sym a b ab, q), (p, h))
AllApart-Permᴰ (trans d d') h = AllApart-Permᴰ d' (AllApart-Permᴰ d h)

-- The tables of an engine up to what they answer: in what order they were filled is forgotten.
abbrev pub Known : Type 0
Known = Quot SameTables

-- A client that arrives, and clients that arrive one after the other.
pub arrive : Arrival → Known → Known
arrive a =
    Quot.lift Quot-set (λ e. Quot.mk (enter a e)) (λ e e' h. Quot.sound (enter-SameTables a e e' h))

abbrev pub arrive_all : List Arrival → Known → Known
arrive_all [] t = t
arrive_all (a ∷ rest) t = arrive_all rest (arrive a t)

arrive-swap :
    (a b : Arrival) → Apart a b → (t : Known) → arrive b (arrive a t) ≡ arrive a (arrive b t)
unfolding arrive
arrive-swap a b apart = Quot.ind (λ t. Quot-set _ _) (λ e. Quot.sound (enter-swap a b e apart))

arrive_all-Permᴰ :
    {xs ys : List Arrival}
    → Permᴰ xs ys
    → AllApart xs
    → (t : Known) → arrive_all xs t ≡ arrive_all ys t
arrive_all-Permᴰ nil h t = refl
arrive_all-Permᴰ (cons {l₁ = xs} {l₂ = ys} e d) (p, h) t =
    arrive_all-Permᴰ d h _ ∙ ap (λ (x : Arrival). arrive_all ys (arrive x t)) e
arrive_all-Permᴰ (swap {a = a} {b = b} {l = l} e e') ((ab, p), (q, h)) t =
    ap (arrive_all l) (arrive-swap a b ab t)
    ∙ ap (λ (xs : List Arrival). arrive_all xs t) (λ i. e' i ∷ (e i ∷ l))
arrive_all-Permᴰ (trans d d') h t =
    arrive_all-Permᴰ d h t ∙ arrive_all-Permᴰ d' (AllApart-Permᴰ d h) t

arrive_all-enter_all :
    (xs : List Arrival) (e : Engine) → arrive_all xs (Quot.mk e) ≡ Quot.mk (enter_all xs e)
unfolding arrive
arrive_all-enter_all [] e = refl
arrive_all-enter_all (a ∷ rest) e = arrive_all-enter_all rest (enter a e)

-- Who of those that arrive has an id, or comes on a socket: the first.
abbrev pub arriving : NodeId → List Arrival → Option Node
arriving k [] = none
arriving k (a ∷ rest) = if ids_eq k a.id then some a.node else arriving k rest

abbrev pub holding : ℕ → List Arrival → Option NodeId
holding s [] = none
holding s (a ∷ rest) = if s == a.sock then some a.id else holding s rest

abbrev pub or_else {ℓ} : {A : Type ℓ} → Option A → Option A → Option A
or_else none o = o
or_else (some x) o = some x

-- What is to be found afterwards: a client that was there stays, and a socket is that of its latest client.
abbrev pub client_after : NodeId → List Arrival → Engine → Option Node
client_after k xs e = or_else (find k e.client_node) (arriving k xs)

abbrev pub sock_after : ℕ → List Arrival → Engine → Option NodeId
sock_after s xs e = or_else (holding s xs) (find s e.sock_id_pair)

enter_all-client :
    (k : NodeId) (xs : List Arrival) (e : Engine)
    → find k (enter_all xs e).client_node ≡ client_after k xs e
unfolding put_client
enter_all-client k [] e = elim (Option-cases (find k e.client_node)) [
  | inl unknown ↦ rw unknown refl
  | inr (node, known) ↦ rw known refl
]
enter_all-client k (a ∷ rest) e =
    rw (enter_all-client k rest (enter a e), find-insert a.id k a.node e.client_node)
      (elim (Bool-cases (ids_eq k a.id)) [
        | inl same ↦ rw (same, (ids_eq_iff k a.id).0 same) (kept (find a.id e.client_node))
        | inr other ↦ rw other refl
      ])
  where
    kept :
        (o : Option Node)
        → or_else (elim o [ none ↦ some a.node | some w ↦ some w ]) (arriving a.id rest)
          ≡ or_else o (some a.node)
    kept none = refl
    kept (some w) = refl

holding-none : (a : Arrival) (rest : List Arrival) → All (Apart a) rest → holding a.sock rest ≡ none
holding-none a [] h = refl
holding-none a (b ∷ rest) ((ids, socks), h) = ground (arith, socks, holding-none a rest h)

enter_all-sock :
    (s : ℕ) (xs : List Arrival) (e : Engine)
    → AllApart xs
    → find s (enter_all xs e).sock_id_pair ≡ sock_after s xs e
unfolding put_client
enter_all-sock s [] e h = refl
enter_all-sock s (a ∷ rest) e (apart, h) =
    rw (enter_all-sock s rest (enter a e) h, find-assign a.sock s a.id e.sock_id_pair)
      (elim (Bool-cases (s == a.sock)) [
        | inl same ↦ rw (same, (==_iff s a.sock).0 same, holding-none a rest apart) refl
        | inr other ↦ rw other refl
      ])

-- What is known under an id and under a socket.
known_client : NodeId → Known → Option Node
known_client k = Quot.lift (hlevel) (λ e. find k e.client_node) (λ e e' h. h.clients k)

known_sock : ℕ → Known → Option NodeId
known_sock s = Quot.lift (hlevel) (λ e. find s e.sock_id_pair) (λ e e' h. h.socks s)

enter_all-known :
    {xs ys : List Arrival} (e : Engine)
    → Permᴰ xs ys
    → AllApart xs
    → ◌≡◌ {A = Known} (Quot.mk (enter_all xs e)) (Quot.mk (enter_all ys e))
enter_all-known {xs} {ys} e d h =
    sym (arrive_all-enter_all xs e) ∙ (arrive_all-Permᴰ d h (Quot.mk e) ∙ arrive_all-enter_all ys e)

-- Clients that are put into the tables one after the other, under different ids and on different
-- sockets, each by `put_client`: in whatever order they come, the tables are the same up to what they
-- answer. Under every id there is then the client that was there before, and otherwise the one that came
-- with that id; and every socket stands for the id of the one that came on it, and otherwise for what it
-- stood for before.
pub enter_all-reorders :
    (xs ys : List Arrival) (e : Engine)
    → Permᴰ xs ys
    → AllApart xs
    → (◌≡◌ {A = Known} (Quot.mk (enter_all xs e)) (Quot.mk (enter_all ys e)))
      × ((k : NodeId)
          → (find k (enter_all xs e).client_node ≡ client_after k xs e)
            × (find k (enter_all ys e).client_node ≡ client_after k xs e))
      × ((s : ℕ)
          → (find s (enter_all xs e).sock_id_pair ≡ sock_after s xs e)
            × (find s (enter_all ys e).sock_id_pair ≡ sock_after s xs e))
unfolding known_client known_sock
enter_all-reorders xs ys e d h =
    let same = enter_all-known e d h in
    (
      same,
      (λ k. (enter_all-client k xs e, sym (ap (known_client k) same) ∙ enter_all-client k xs e)),
      (λ s. (enter_all-sock s xs e h, sym (ap (known_sock s) same) ∙ enter_all-sock s xs e h)),
    )
