-- ===== src/Node.antt =====
-- src/node.cpp and include/node.h: `NET::Node`, what is known of one node of the network.
pub mod Id
pub mod Print
pub mod IdOrder
use ebc_node.Base.{
  ℕ, zero, suc, ◌+◌, ◌-◌, ◌*◌, ◌/◌, ◌%◌, ◌^◌, ◌≤◌, ◌<◌, ◌≡◌, refl, sym, ap, ◌∙◌, ◌≢◌, ◌↔◌, ◌⊎◌, inl,
  inr, Bool, true, false, not, ◌&&◌, ◌||◌, Option, none, some, List, [], ◌∷◌, ◌++◌, map, arith,
  dec_lt, ℕ_discrete, ltb, leb, ◌==◌, if◌then◌else◌, ltb→lt, ==_iff, Bool-cases, Option-cases,
  length, get_elem?, take, drop, replicate, All, length-append, length-take, length-drop,
  take-append, drop-append, take_all,
}
use Prim.Native.String.{String}
use ebc_node.Base.StdMap.{MapKey}
use ebc_node.Utils.{id_length}
use ebc_node.SockAddr.{SockAddr, no_addr, new_addr, assign, memcmp_eq}

-- A `NodeId` is the list of its 20 bytes.
abbrev pub NodeId : Type 0
NodeId = List ℕ

abbrev pub zero_id : NodeId
zero_id = replicate id_length 0

pub data NodeState : Type 0 where
  stable connected paunch disconnected : NodeState

-- `NatType`; other values come from a cast of four bits.
abbrev full_clone : ℕ
full_clone = 0

abbrev pub symmtric : ℕ
symmtric = 3

-- `time_point`: nanoseconds since the clock's epoch, or `time_point::max()`.
pub data TimePoint : Type 0 where
  at : ℕ → TimePoint
  max : TimePoint

-- `sock` is `none` until it is set: the constructors leave it indeterminate.
pub record Node : Type 0 where
  pub id : NodeId
  pub addr : SockAddr
  pub state : NodeState
  pub nat : ℕ
  pub last_tm : TimePoint
  pub ping_count : ℕ
  pub sock : Option ℕ

-- `Node()`, over the address that `SockAddr()` makes.
unfoldable pub default_node : SockAddr → Node
default_node addr = record {
  id = zero_id;
  addr = addr;
  state = disconnected;
  nat = symmtric;
  last_tm = at 0;
  ping_count = 0;
  sock = none;
}

-- `Node(_id)` with its default arguments. A `NodeId` is never longer than `ID_LENGTH`.
unfoldable pub new_node : NodeId → Node
new_node id = record {
  id = if ltb id_length (length id) then zero_id else id;
  addr = no_addr;
  state = disconnected;
  nat = symmtric;
  last_tm = max;
  ping_count = 0;
  sock = none;
}

-- The getters.
unfoldable pub get_id : Node → NodeId
get_id n = n.id

unfoldable pub get_addr : Node → SockAddr
get_addr n = n.addr

unfoldable pub get_state : Node → NodeState
get_state n = n.state

unfoldable pub get_nat_type : Node → ℕ
get_nat_type n = n.nat

unfoldable pub get_sock : Node → Option ℕ
get_sock n = n.sock

unfoldable pub get_last_time : Node → TimePoint
get_last_time n = n.last_tm

unfoldable pub get_ping_count : Node → ℕ
get_ping_count n = n.ping_count

-- The setters.
unfoldable pub set_addr : SockAddr → Node → Node
set_addr addr n = record n { addr = addr }

unfoldable pub set_state : NodeState → Node → Node
set_state state n = record n { state = state }

unfoldable pub set_nat : ℕ → Node → Node
set_nat nat n = record n { nat = nat }

unfoldable pub set_sock : ℕ → Node → Node
set_sock sock n = record n { sock = some sock }

unfoldable set_last_tm : TimePoint → Node → Node
set_last_tm tm n = record n { last_tm = tm }

unfoldable set_ping_count : ℕ → Node → Node
set_ping_count count n = record n { ping_count = count % 256 }

-- `isExpired`: the comparison is switched off by `#if 0`.
unfoldable is_expired : TimePoint → Node → Bool
is_expired now n = false

-- `operator=`, member by member.
unfoldable pub assign_node : Node → Node → Option Node
assign_node n o = elim (assign n.addr o.addr) [
  | none ↦ none
  | some addr ↦ some (record n {
    id = o.id;
    addr = addr;
    state = o.state;
    nat = o.nat;
    last_tm = o.last_tm;
    ping_count = o.ping_count;
    sock = o.sock;
  })
]

-- `operator==`: `memcmp` of the objects, whose bytes, the pointer and the padding included, are the
-- compiler's (`layout`).
unfoldable same_bytes : (Node → List ℕ) → Node → Node → Bool
same_bytes layout n o = memcmp_eq (layout n) (layout o)

-- `NodeId2String`: the string is resized to 20 zero bytes, and the id is appended to them.
unfoldable pub node_id_to_string : NodeId → List ℕ
node_id_to_string id = replicate id_length 0 ++ id

-- `String2NodeId`: `memcpy` of 20 bytes from `_str.data()`, which holds the string and a NUL. To
-- read behind that is undefined.
unfoldable pub string_to_node_id : List ℕ → Option NodeId
string_to_node_id s =
    let readable : List ℕ = s ++ (0 ∷ []) in
    if leb id_length (length readable) then some (take id_length readable) else none

-- Ids as keys of a `std::map`: `operator<` and `operator==` of `std::array` go byte by byte.
abbrev pub ids_eq : NodeId → NodeId → Bool
ids_eq [] [] = true
ids_eq [] (y ∷ ys) = false
ids_eq (x ∷ xs) [] = false
ids_eq (x ∷ xs) (y ∷ ys) = (x == y) && ids_eq xs ys

abbrev ids_lt : NodeId → NodeId → Bool
ids_lt [] [] = false
ids_lt [] (y ∷ ys) = true
ids_lt (x ∷ xs) [] = false
ids_lt (x ∷ xs) (y ∷ ys) = if ltb x y then true else if ltb y x then false else ids_lt xs ys

pub ids_eq_iff : (a b : NodeId) → (ids_eq a b ≡ true) ↔ (a ≡ b)
ids_eq_iff [] [] = ((λ h. refl), (λ h. refl))
ids_eq_iff [] (y ∷ ys) = ((λ h. cc), (λ h. cc))
ids_eq_iff (x ∷ xs) [] = ((λ h. cc), (λ h. cc))
ids_eq_iff (x ∷ xs) (y ∷ ys) = ground (arith, ids_eq_iff xs ys)

instance abbrev pub id_key : MapKey NodeId
id_key = record { eq = ids_eq; lt = ids_lt; eq_iff = ids_eq_iff }

instance abbrev pub sock_key : MapKey ℕ
sock_key = record { eq = ◌==◌; lt = ltb; eq_iff = ==_iff }
