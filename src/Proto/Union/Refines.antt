-- ===== src/Proto/Union/Refines.antt =====
-- The body of a message in memory, against the sum that Proto/Msg has for it.
use ebc_node.Base.{ℕ, ◌≡◌, refl, true, false, Option, none, some, List, [], ◌∷◌, arith}
use ebc_node.Proto.Nodes.{EbcNodes, new_nodes}
use ebc_node.Proto.Msg
use ebc_node.Proto.Msg.{EbcMsg, Body, msg_body, nodes_body, new_msg}
use ebc_node.Proto.Union.{
  Union, Pointer, BodyCase, Answer, a_string, some_nodes, body_not_set, k_msg, k_nodes, nothing,
  released_string, released_nodes, ◌>>=◌, shared_ctor, a_case, a_flag, a_text, a_list, body_case,
  has_msg, has_nodes, has_body, msg, nodes, clear_body, set_msg, set_nodes, clear_msg, clear_nodes,
  release_msg, release_nodes, set_allocated_msg, set_allocated_nodes,
}

-- The body that a union stands for, where its pointer is what the discriminant says.
abbrev pub body_at : BodyCase → Pointer → Option Body
body_at body_not_set p = some Msg.body_not_set
body_at k_msg (a_string s) = some (msg_body s)
body_at k_nodes (some_nodes ns) = some (nodes_body ns)
body_at _ _ = none

-- The calls.
pub data BodyCall : Type 0 where
  asks_case asks_msg asks_nodes asks_body reads_msg reads_nodes : BodyCall
  clears_body clears_msg clears_nodes releases_msg releases_nodes : BodyCall
  sets_msg : List ℕ → BodyCall
  sets_nodes : EbcNodes → BodyCall
  allocates_msg : Option (List ℕ) → BodyCall
  allocates_nodes : Option EbcNodes → BodyCall

abbrev quiet {ℓ} : {A : Type ℓ} → Option A → Option (Answer × A)
quiet o = o >>= λ a. some (nothing, a)

abbrev perform : BodyCall → Union → Option (Answer × Union)
perform asks_case u = some (a_case (body_case u), u)
perform asks_msg u = some (a_flag (has_msg u), u)
perform asks_nodes u = some (a_flag (has_nodes u), u)
perform asks_body u = some (a_flag (has_body u), u)
perform reads_msg u = msg u >>= λ s. some (a_text s, u)
perform reads_nodes u = nodes u >>= λ ns. some (a_list ns, u)
perform clears_body u = quiet (clear_body u)
perform clears_msg u = quiet (clear_msg u)
perform clears_nodes u = quiet (clear_nodes u)
perform releases_msg u = release_msg u
perform releases_nodes u = release_nodes u
perform (sets_msg s) u = quiet (set_msg s u)
perform (sets_nodes ns) u = quiet (set_nodes ns u)
perform (allocates_msg o) u = quiet (set_allocated_msg o u)
perform (allocates_nodes o) u = quiet (set_allocated_nodes o u)

-- What is read of the sum.
abbrev case_of : Body → BodyCase
case_of Msg.body_not_set = body_not_set
case_of (msg_body s) = k_msg
case_of (nodes_body ns) = k_nodes

-- What the calls do to the sum, and return.
abbrev meaning : BodyCall → Body → Option (Answer × Body)
meaning asks_case b = some (a_case (case_of b), b)
meaning asks_msg (msg_body s) = some (a_flag true, msg_body s)
meaning asks_msg b = some (a_flag false, b)
meaning asks_nodes (nodes_body ns) = some (a_flag true, nodes_body ns)
meaning asks_nodes b = some (a_flag false, b)
meaning asks_body Msg.body_not_set = some (a_flag false, Msg.body_not_set)
meaning asks_body b = some (a_flag true, b)
meaning reads_msg (msg_body s) = some (a_text s, msg_body s)
meaning reads_msg b = some (a_text [], b)
meaning reads_nodes (nodes_body ns) = some (a_list ns, nodes_body ns)
meaning reads_nodes b = some (a_list new_nodes, b)
meaning clears_body b = some (nothing, Msg.body_not_set)
meaning clears_msg (msg_body s) = some (nothing, Msg.body_not_set)
meaning clears_msg b = some (nothing, b)
meaning clears_nodes (nodes_body ns) = some (nothing, Msg.body_not_set)
meaning clears_nodes b = some (nothing, b)
meaning releases_msg (msg_body s) = some (released_string s, Msg.body_not_set)
meaning releases_msg b = some (nothing, b)
meaning releases_nodes (nodes_body ns) = some (released_nodes ns, Msg.body_not_set)
meaning releases_nodes b = some (nothing, b)
meaning (sets_msg s) b = some (nothing, msg_body s)
meaning (sets_nodes ns) b = some (nothing, nodes_body ns)
meaning (allocates_msg none) (nodes_body ns) = none
meaning (allocates_msg none) b = some (nothing, Msg.body_not_set)
meaning (allocates_msg (some s)) Msg.body_not_set = some (nothing, msg_body s)
meaning (allocates_msg (some s)) b = none
meaning (allocates_nodes none) b = some (nothing, Msg.body_not_set)
meaning (allocates_nodes (some ns)) b = some (nothing, nodes_body ns)

-- What is seen of a run, and what is to be seen: a body that its pointer does not fit is no body.
abbrev pub seen {ℓ} : {A : Type ℓ} → Option (A × Union) → Option (A × Option Body)
seen none = none
seen (some (a, u)) = some (a, body_at u.oneof_case u.pointer)

abbrev pub expected {ℓ} : {A : Type ℓ} → Option (A × Body) → Option (A × Option Body)
expected none = none
expected (some (a, b)) = some (a, some b)

perform-refines :
    (c : BodyCall) (k : BodyCase) (p : Pointer) (b : Body)
    → body_at k p ≡ some b
    → seen (perform c (record { oneof_case = k; pointer = p })) ≡ expected (meaning c b)
unfolding body_case has_msg has_nodes has_body msg nodes clear_body set_msg set_nodes clear_msg
    clear_nodes release_msg release_nodes set_allocated_msg set_allocated_nodes
perform-refines c k p b h = ground (arith, h)

-- A sequence of the calls, with what they return; the first that is undefined ends it.
abbrev and_then {ℓ} :
    {A : Type ℓ} → Option (Answer × A) → (A → Option (List Answer × A)) → Option (List Answer × A)
and_then none f = none
and_then (some (a, x)) f = f x >>= λ r. some (a ∷ r.0, r.1)

unfoldable pub run : List BodyCall → Union → Option (List Answer × Union)
run [] u = some ([], u)
run (c ∷ cs) u = and_then (perform c u) (run cs)

unfoldable pub replay : List BodyCall → Body → Option (List Answer × Body)
replay [] b = some ([], b)
replay (c ∷ cs) b = and_then (meaning c b) (replay cs)

answers-first :
    (a : Answer) (x : Option (List Answer × Union)) (y : Option (List Answer × Body))
    → seen x ≡ expected y
    → seen (x >>= λ r. some (a ∷ r.0, r.1)) ≡ expected (y >>= λ r. some (a ∷ r.0, r.1))
answers-first a none none h = refl
answers-first a none (some r) h = cc
answers-first a (some r) none h = cc
answers-first a (some (answers, u)) (some (answers', b)) h = ground (arith, h)

-- Any sequence of the calls that ask for the case of the body of a message, read it, set, clear or release
-- it or hand one over, on the union of a new message, whatever its memory holds: they are defined exactly where the same calls on a
-- body that is nothing, a text or nodes are, return the same, and leave a union whose pointer points to
-- what its discriminant says and stands for the same body. The one call that can be undefined is
-- `set_allocated_msg`: of a text where there is a body, and of the null pointer where there are nodes.
pub run-refines :
    (cs : List BodyCall) (p : Pointer)
    → seen (run cs (shared_ctor p)) ≡ expected (replay cs Msg.body_not_set)
unfolding run replay shared_ctor
run-refines cs p = from cs body_not_set p Msg.body_not_set refl
  where
    from :
        (cs : List BodyCall) (k : BodyCase) (p : Pointer) (b : Body)
        → body_at k p ≡ some b
        → seen (run cs (record { oneof_case = k; pointer = p })) ≡ expected (replay cs b)
    from [] k p b h = rw h refl
    from (c ∷ cs) k p b h =
        after (from cs) (perform c (record { oneof_case = k; pointer = p })) (meaning c b)
          (perform-refines c k p b h)
      where
        after :
            ((k : BodyCase) (p : Pointer) (b : Body)
              → body_at k p ≡ some b
              → seen (run cs (record { oneof_case = k; pointer = p })) ≡ expected (replay cs b))
            → (x : Option (Answer × Union)) (y : Option (Answer × Body)) → seen x ≡ expected y
            → seen (and_then x (run cs)) ≡ expected (and_then y (replay cs))
        after ih none none h = refl
        after ih none (some r) h = cc
        after ih (some r) none h = cc
        after ih (some (a, u)) (some (a', b)) h =
            let same : a ≡ a' = ground (arith, h) in
            let stands : body_at u.oneof_case u.pointer ≡ some b = ground (arith, h) in
            rw (← same)
              (answers-first a (run cs u) (replay cs b) (ih u.oneof_case u.pointer b stands))
