-- ===== src/Proto/Union.antt =====
-- include/msg.pb.h and src/msg.pb.cc: the union `body_` of `config::EbcMsg` as it lies in memory, one
-- pointer with the discriminant `_oneof_case_[0]`, and the functions of the generated code that read and
-- write it. A string of the runtime is the pointer to the shared empty string or to one of its own.
pub mod Refines
use ebc_node.Base.{ℕ, Bool, true, false, Option, none, some, List, [], if◌then◌else◌, not}
use ebc_node.Proto.Nodes.{EbcNodes, new_nodes}

-- `BodyCase`.
pub data BodyCase : Type 0 where
  body_not_set k_msg k_nodes : BodyCase

-- What the pointer points to: `freed` is memory that was given back.
pub data Pointer : Type 0 where
  empty_string null freed : Pointer
  a_string : List ℕ → Pointer
  some_nodes : EbcNodes → Pointer

pub record Union : Type 0 where
  pub oneof_case : BodyCase
  pub pointer : Pointer

-- What a call returns: nothing or a null pointer, what was released to the caller, or what was read.
pub data Answer : Type 0 where
  nothing : Answer
  released_string : List ℕ → Answer
  released_nodes : EbcNodes → Answer
  a_case : BodyCase → Answer
  a_flag : Bool → Answer
  a_text : List ℕ → Answer
  a_list : EbcNodes → Answer

-- To use a pointer as one to something else, or after it was freed, is undefined: `none`.
infixl 5 ◌>>=◌
abbrev pub ◌>>=◌ {ℓ κ} : {A : Type ℓ} {B : Type κ} → Option A → (A → Option B) → Option B
none >>= f = none
some a >>= f = f a

-- The calls of the runtime: `DestroyNoArena`, `SetNoArena`, `MutableNoArena` with an assignment,
-- `ReleaseNoArena` and `SetAllocatedNoArena` of a string, and `delete` of nodes.
abbrev pub destroy_string : Pointer → Option Pointer
destroy_string empty_string = some empty_string
destroy_string (a_string s) = some freed
destroy_string _ = none

abbrev pub set_string : List ℕ → Pointer → Option Pointer
set_string value empty_string = some (a_string value)
set_string value (a_string s) = some (a_string value)
set_string value _ = none

abbrev pub release_string : Pointer → Option (Answer × Pointer)
release_string empty_string = some (nothing, empty_string)
release_string (a_string s) = some (released_string s, empty_string)
release_string _ = none

abbrev pub set_allocated_string : List ℕ → Pointer → Option Pointer
set_allocated_string value p = destroy_string p >>= λ _. some (a_string value)

abbrev pub delete_nodes : Pointer → Option Pointer
delete_nodes (some_nodes ns) = some freed
delete_nodes null = some null
delete_nodes _ = none

-- `body_case`, `has_msg`, `has_nodes` and `has_body`.
unfoldable pub body_case : Union → BodyCase
body_case u = u.oneof_case

abbrev is_msg : BodyCase → Bool
is_msg k_msg = true
is_msg _ = false

abbrev is_nodes : BodyCase → Bool
is_nodes k_nodes = true
is_nodes _ = false

unfoldable pub has_msg : Union → Bool
has_msg u = is_msg u.oneof_case

unfoldable pub has_nodes : Union → Bool
has_nodes u = is_nodes u.oneof_case

abbrev is_set : BodyCase → Bool
is_set body_not_set = false
is_set _ = true

unfoldable pub has_body : Union → Bool
has_body u = is_set u.oneof_case

-- `msg` and `nodes`: without such a body the empty string or an empty list, and otherwise what the pointer
-- points to.
abbrev text_at : Pointer → Option (List ℕ)
text_at empty_string = some []
text_at (a_string s) = some s
text_at _ = none

abbrev list_at : Pointer → Option EbcNodes
list_at (some_nodes ns) = some ns
list_at _ = none

unfoldable pub msg : Union → Option (List ℕ)
unfolding has_msg
msg u = if has_msg u then text_at u.pointer else some []

unfoldable pub nodes : Union → Option EbcNodes
unfolding has_nodes
nodes u = if has_nodes u then list_at u.pointer else some new_nodes

-- `SharedCtor`, of memory that may hold any pointer.
unfoldable pub shared_ctor : Pointer → Union
shared_ctor p = record { oneof_case = body_not_set; pointer = p }

-- `clear_body`: the pointer stays in the union.
unfoldable pub clear_body : Union → Option Union
clear_body u =
    elim u.oneof_case [
      | k_msg ↦ destroy_string u.pointer
      | k_nodes ↦ delete_nodes u.pointer
      | body_not_set ↦ some u.pointer
    ]
    >>= λ p. some (record { oneof_case = body_not_set; pointer = p })

-- The destructor.
unfoldable shared_dtor : Union → Option Union
unfolding clear_body
shared_dtor u = elim u.oneof_case [ body_not_set ↦ some u | _ ↦ clear_body u ]

-- The guard of `set_msg` and `mutable_msg`: a body that is no text becomes the empty one.
abbrev to_msg : Union → Option Union
to_msg u =
    if has_msg u
    then some u
    else clear_body u >>= λ _. some (record { oneof_case = k_msg; pointer = empty_string })

-- `set_msg(value)`, and an assignment through the pointer that `mutable_msg` returns.
unfoldable pub set_msg : List ℕ → Union → Option Union
unfolding has_msg clear_body
set_msg value u =
    to_msg u >>= λ v. set_string value v.pointer >>= λ p. some (record v { pointer = p })

-- An assignment through the pointer that `mutable_nodes` returns.
abbrev assign_nodes : EbcNodes → Pointer → Option Pointer
assign_nodes value (some_nodes ns) = some (some_nodes value)
assign_nodes value _ = none

unfoldable pub set_nodes : EbcNodes → Union → Option Union
unfolding has_nodes clear_body
set_nodes value u =
    (if has_nodes u
      then some u
      else clear_body u >>= λ _.
          some (record { oneof_case = k_nodes; pointer = some_nodes new_nodes }))
    >>= λ v. assign_nodes value v.pointer >>= λ p. some (record v { pointer = p })

-- `clear_msg` and `clear_nodes`.
unfoldable pub clear_msg : Union → Option Union
unfolding has_msg
clear_msg u =
    if has_msg u
    then (destroy_string u.pointer >>= λ p.
        some (record { oneof_case = body_not_set; pointer = p }))
    else some u

unfoldable pub clear_nodes : Union → Option Union
unfolding has_nodes
clear_nodes u =
    if has_nodes u
    then (delete_nodes u.pointer >>= λ p. some (record { oneof_case = body_not_set; pointer = p }))
    else some u

-- `release_msg` and `release_nodes`.
unfoldable pub release_msg : Union → Option (Answer × Union)
unfolding has_msg
release_msg u =
    if has_msg u
    then (release_string u.pointer >>= λ r.
        some (r.0, record { oneof_case = body_not_set; pointer = r.1 }))
    else some (nothing, u)

abbrev taken_nodes : Pointer → Option Answer
taken_nodes (some_nodes ns) = some (released_nodes ns)
taken_nodes null = some nothing
taken_nodes _ = none

unfoldable pub release_nodes : Union → Option (Answer × Union)
unfolding has_nodes
release_nodes u =
    if has_nodes u
    then (taken_nodes u.pointer >>= λ a.
        some (a, record { oneof_case = body_not_set; pointer = null }))
    else some (nothing, u)

-- `set_allocated_msg` and `set_allocated_nodes`; `none` is the null pointer.
unfoldable pub set_allocated_msg : Option (List ℕ) → Union → Option Union
unfolding has_msg clear_body
set_allocated_msg value u =
    let reset : Union = if has_msg u then u else record u { pointer = empty_string } in
    clear_body reset >>= λ v. elim value [
      | none ↦ some v
      | some s ↦ set_allocated_string s v.pointer >>= λ p.
          some (record { oneof_case = k_msg; pointer = p })
    ]

unfoldable pub set_allocated_nodes : Option EbcNodes → Union → Option Union
unfolding clear_body
set_allocated_nodes value u = clear_body u >>= λ v. elim value [
  | none ↦ some v
  | some ns ↦ some (record { oneof_case = k_nodes; pointer = some_nodes ns })
]
