-- ===== src/SockAddr/Uses.antt =====
-- include/sockaddr.h: an address along any sequence of the operations of its class.
use ebc_node.Base.{ℕ, ◌≤◌, ◌≡◌, ◌⊎◌, inl, inr, Option, none, some, List, [], ◌∷◌, length}
use ebc_node.SockAddr.{
  SockAddr, ◌>>=◌, set_family, new_addr, assign, move_addr, from_storage, from_sockaddr, set_port,
  set_ipv4,
}
use ebc_node.SockAddr.Proper.{IsProper, HasBytes}

-- What is done to an address: a new one is moved into it, made by one of the three constructors, or
-- another one is copied into it, or a field is set.
pub data Use : Type 0 where
  makes : List ℕ → Use
  reads : Option (List ℕ) → ℕ → Use
  reads_any : Option (List ℕ) → Use
  assigns : SockAddr → Use
  sets_family sets_port sets_ipv4 : ℕ → Use

-- A constructor that throws leaves the address as it is.
abbrev moved : SockAddr → Unit {0} ⊎ Option SockAddr → Option SockAddr
moved a (inl thrown) = some a
moved a (inr made) = made >>= λ o. some (move_addr a o).0

abbrev use_addr : Use → SockAddr → Option SockAddr
use_addr (makes fresh) a = moved a (inr (new_addr fresh))
use_addr (reads sa n) a = moved a (from_storage sa n)
use_addr (reads_any sa) a = moved a (from_sockaddr sa)
use_addr (assigns o) a = assign a o
use_addr (sets_family f) a = set_family f a
use_addr (sets_port p) a = set_port p a
use_addr (sets_ipv4 ip) a = set_ipv4 ip a

abbrev pub use_all : List Use → SockAddr → Option SockAddr
use_all [] a = some a
use_all (u ∷ us) a = use_addr u a >>= use_all us

-- What the caller owes: memory for a new address, and as many bytes as the length or the family
-- says.
abbrev pub IsProperUse : Use → Type 0
IsProperUse (makes fresh) = 16 ≤ length fresh
IsProperUse (reads sa n) = HasBytes sa n
IsProperUse (reads_any none) = Unit
IsProperUse (reads_any (some bytes)) = 28 ≤ length bytes
IsProperUse (assigns o) = IsProper o
IsProperUse _ = Unit

-- One operation: it is defined and leaves a proper address, or it is `setIPv4` without a block.
data Used (u : Use) (a : SockAddr) : Type 0 where
  fine : (b : SockAddr) → use_addr u a ≡ some b → IsProper b → Used u a
  wild : (ip : ℕ) → u ≡ sets_ipv4 ip → a.len ≡ 0 → use_addr u a ≡ none → Used u a
