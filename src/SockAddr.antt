-- ===== src/SockAddr.antt =====
-- include/sockaddr.h: `NET::SockAddr`, an owned block of memory that holds a socket address.
-- Memory is a list of bytes in the layout of Linux on a little-endian machine: the family in bytes
-- 0 and 1, the port in 2 and 3, the IPv4 address in 4 to 7, the IPv6 address in 8 to 23.
pub mod Proper
pub mod Uses
pub mod Fields
pub mod Order
pub mod Names
pub mod Resolve
pub mod Lies
pub mod IpCmp
use ebc_node.Base.{
  ℕ, zero, suc, ◌+◌, ◌-◌, ◌*◌, ◌/◌, ◌%◌, ◌^◌, ◌≤◌, ◌<◌, ◌≡◌, refl, sym, ap, ◌∙◌, ◌≢◌, ◌↔◌, ◌⊎◌, inl,
  inr, Bool, true, false, not, ◌&&◌, ◌||◌, Option, none, some, List, [], ◌∷◌, ◌++◌, map, arith,
  dec_lt, ℕ_discrete, ltb, leb, ◌==◌, if◌then◌else◌, ltb→lt, ==_iff, Bool-cases, Option-cases,
  length, get_elem?, take, drop, replicate, All, length-append, length-take, length-drop,
  take-append, drop-append, take_all,
}

abbrev af_unspec : ℕ
af_unspec = 0

abbrev pub af_inet : ℕ
af_inet = 2

abbrev af_inet6 : ℕ
af_inet6 = 10

-- `sizeof(sockaddr)` and `sizeof(sockaddr_in)`, `sizeof(sockaddr_in6)`, `sizeof(sockaddr_storage)`.
abbrev inet_size : ℕ
inet_size = 16

abbrev inet6_size : ℕ
inet6_size = 28

abbrev storage_size : ℕ
storage_size = 128

-- `addr` is `none` for the null pointer.
pub record SockAddr : Type 0 where
  pub len : ℕ
  pub addr : Option (List ℕ)

-- A step that is undefined behaviour, such as a write through the null pointer, is `none`.
infixl 5 ◌>>=◌
abbrev pub ◌>>=◌ {ℓ κ} : {A : Type ℓ} {B : Type κ} → Option A → (A → Option B) → Option B
none >>= f = none
some a >>= f = f a

pub >>=-eq-some {ℓ κ} :
    {A : Type ℓ} {B : Type κ} (o : Option A) (f : A → Option B) {b : B}
    → (o >>= f) ≡ some b
    → (a : A) × (o ≡ some a) × (f a ≡ some b)
>>=-eq-some none f h = cc
>>=-eq-some (some a) f h = (a, refl, h)

-- Little-endian numbers in memory.
unfoldable pub first_u16 : List ℕ → Option ℕ
first_u16 (a ∷ b ∷ rest) = some (a + 256 * b)
first_u16 _ = none

unfoldable pub first_u32 : List ℕ → Option ℕ
first_u32 (a ∷ b ∷ c ∷ d ∷ rest) = some (a + 256 * b + 65536 * c + 16777216 * d)
first_u32 _ = none

abbrev pub le16 : ℕ → List ℕ
le16 v = (v % 256) ∷ (v / 256 % 256) ∷ []

abbrev pub le32 : ℕ → List ℕ
le32 v = (v % 256) ∷ (v / 256 % 256) ∷ (v / 65536 % 256) ∷ (v / 16777216 % 256) ∷ []

-- Bytes of the block overwritten from an offset on; outside the block it is undefined.
unfoldable pub write_at : ℕ → List ℕ → SockAddr → Option SockAddr
write_at offset new a = a.addr >>= λ m.
    if leb (offset + length new) (length m)
    then some (record a { addr = some (take offset m ++ (new ++ drop (offset + length new) m)) })
    else none

-- What `malloc(n)` returns: `fresh` is what the memory happens to hold.
abbrev pub malloc : List ℕ → ℕ → List ℕ
malloc fresh n = take n fresh

-- `getFamily`.
unfoldable pub get_family : SockAddr → Option ℕ
get_family a = if ltb 2 a.len then a.addr >>= first_u16 else some af_unspec

-- `setFamily`: the block is replaced by a cleared one if its size is not that of the family.
abbrev family_size : ℕ → ℕ
family_size af = if af == af_inet then inet_size else if af == af_inet6 then inet6_size else 0

unfoldable pub set_family : ℕ → SockAddr → Option SockAddr
set_family af a =
    let new_length = family_size af in
    let resized : SockAddr = if new_length == a.len then a else record {
      len = new_length;
      addr = if new_length == 0 then none else some (replicate new_length 0);
    } in
    if ltb 2 resized.len then write_at 0 (le16 af) resized else some resized

-- `SockAddr()`.
unfoldable pub new_addr : List ℕ → Option SockAddr
new_addr fresh =
    set_family af_inet (record { len = inet_size; addr = some (malloc fresh inet_size) })

-- An object before `set` in a constructor.
abbrev pub no_addr : SockAddr
no_addr = record { len = 0; addr = none }

-- `set(sa, length)`: a block of another size is replaced, and `memcpy` reads `length` bytes.
unfoldable pub set : Option (List ℕ) → ℕ → SockAddr → Option SockAddr
set sa length' a =
    if length' == 0
    then some (if a.len == 0 then a else no_addr)
    else (if a.len == length' then a.addr else some []) >>= λ _. sa >>= λ bytes.
        if leb length' (length bytes)
        then some (record { len = length'; addr = some (take length' bytes) })
        else none

-- `SockAddr(const SockAddr& o)`, and the assignment from another object.
unfoldable pub copy : SockAddr → Option SockAddr
copy o = set o.addr o.len no_addr

unfoldable pub assign : SockAddr → SockAddr → Option SockAddr
assign a o = set o.addr o.len a

-- The move constructor, and the assignment from a temporary, whose old block is released: this object
-- and what is left of the other one.
unfoldable move_new : SockAddr → SockAddr × SockAddr
move_new o = (record { len = o.len; addr = o.addr }, record { len = 0; addr = none })

unfoldable move_addr : SockAddr → SockAddr → SockAddr × SockAddr
move_addr a o = (record a { len = o.len; addr = o.addr }, record { len = 0; addr = none })

-- `SockAddr(sa, length)` and `SockAddr(sa)`; `inl tt` is the exception that they throw.
unfoldable pub from_storage : Option (List ℕ) → ℕ → Unit {0} ⊎ Option SockAddr
from_storage sa length' = if ltb storage_size length' then inl tt else inr (set sa length' no_addr)

-- `SockAddr(ss, len)`, of a `sockaddr_storage`.
unfoldable from_ss : List ℕ → ℕ → Unit {0} ⊎ Option SockAddr
unfolding from_storage
from_ss ss length' = from_storage (some ss) length'

abbrev from_family : List ℕ → Option ℕ → Unit {0} ⊎ Option SockAddr
from_family bytes none = inr none
from_family bytes (some family) =
    if family == af_inet
    then inr (set (some bytes) inet_size no_addr)
    else if family == af_inet6
    then inr (set (some bytes) inet6_size no_addr)
    else inl tt

unfoldable from_sockaddr : Option (List ℕ) → Unit {0} ⊎ Option SockAddr
from_sockaddr none = inr (set none 0 no_addr)
from_sockaddr (some bytes) = from_family bytes (first_u16 bytes)

-- `getIPv4().sin_port` as it lies in memory, and `getPort`, which passes it through `ntohs`.
unfoldable pub raw_port : SockAddr → Option ℕ
raw_port a = a.addr >>= λ m. first_u16 (drop 2 m)

abbrev pub ntohs : ℕ → ℕ
ntohs v = v % 256 * 256 + v / 256 % 256

unfoldable pub get_port : SockAddr → Option ℕ
get_port a = get_family a >>= λ family.
    if family == af_inet
    then (raw_port a >>= λ p. some (ntohs p))
    else if family == af_inet6
    then (raw_port a >>= λ p. some (ntohs p))
    else some 0

-- `setPort`: both kinds of address have the port at the same place.
unfoldable pub set_port : ℕ → SockAddr → Option SockAddr
set_port p a = get_family a >>= λ family.
    if family == af_inet
    then write_at 2 (le16 p) a
    else if family == af_inet6
    then write_at 2 (le16 p) a
    else some a

-- `setIPv4` and `getIPv4().sin_addr.s_addr`.
unfoldable pub set_ipv4 : ℕ → SockAddr → Option SockAddr
set_ipv4 ip a = write_at 4 (le32 ip) a

unfoldable pub get_ipv4 : SockAddr → Option ℕ
get_ipv4 a = a.addr >>= λ m. first_u32 (drop 4 m)

-- `memcmp` of blocks: the sign of the result.
unfoldable pub memcmp_lt : List ℕ → List ℕ → Bool
memcmp_lt [] _ = false
memcmp_lt (x ∷ xs) [] = false
memcmp_lt (x ∷ xs) (y ∷ ys) = if ltb x y then true else if ltb y x then false else memcmp_lt xs ys

unfoldable pub memcmp_eq : List ℕ → List ℕ → Bool
memcmp_eq [] _ = true
memcmp_eq (x ∷ xs) [] = true
memcmp_eq (x ∷ xs) (y ∷ ys) = (x == y) && memcmp_eq xs ys

-- The bytes at `get()`; there are none behind the null pointer.
abbrev pub bytes_of : SockAddr → List ℕ
bytes_of a = elim a.addr [ none ↦ [] | some m ↦ m ]

-- `operator<` and `equals`.
unfoldable pub less : SockAddr → SockAddr → Bool
less a o = if not (a.len == o.len) then ltb a.len o.len else memcmp_lt (bytes_of a) (bytes_of o)

unfoldable pub equals : SockAddr → SockAddr → Bool
equals a o = (a.len == o.len) && memcmp_eq (bytes_of a) (bytes_of o)

-- `operator==`.
unfoldable same : SockAddr → SockAddr → Bool
same a o = equals a o

-- `getLength`, `operator bool` and `get`.
unfoldable pub get_length : SockAddr → ℕ
get_length a = a.len

unfoldable is_set : SockAddr → Bool
is_set a = not (a.len == 0)

unfoldable pub get : SockAddr → Option (List ℕ)
get a = a.addr

-- The steps by which the engine makes an address: `SockAddr addr; setPort(port); setIPv4(ip)`.
unfoldable pub endpoint : List ℕ → ℕ → ℕ → Option SockAddr
endpoint fresh port ip = new_addr fresh >>= λ a. set_port port a >>= set_ipv4 ip
