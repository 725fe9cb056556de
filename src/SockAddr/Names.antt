-- ===== src/SockAddr/Names.antt =====
-- src/utils.cpp: `SockAddr::resolve` and `print_addr`. The operating system's `getaddrinfo` and
-- `getnameinfo` are parameters.
use ebc_node.Base.{
  ℕ, ◌⊎◌, inl, inr, Bool, false, Option, none, some, List, [], ◌∷◌, ◌++◌, leb, ◌==◌, if◌then◌else◌,
  length, take,
}
use ebc_node.Console.{Out, say, raw, endl}
use ebc_node.SockAddr.{SockAddr, af_inet6, inet_size, first_u16, from_storage}

-- `getaddrinfo(host, service, hints, &info)`: the addresses of the list that it makes, each with its
-- length; it fails with `none`, and no service is the null pointer.
abbrev pub AddrInfo : Type 0
AddrInfo = List ℕ → Option (List ℕ) → Option (List (List ℕ × ℕ))

-- `getnameinfo(sa, slen, …)` with numeric results: host and service.
abbrev pub NameInfo : Type 0
NameInfo = List ℕ → Option (List ℕ × List ℕ)

-- The loop over the list: an exception of the constructor is `inl tt`.
unfoldable pub emplace_all : List (List ℕ × ℕ) → Unit {0} ⊎ Option (List SockAddr)
emplace_all [] = inr (some [])
emplace_all ((sa, n) ∷ infos) = elim (from_storage (some sa) n) [
  | inl thrown ↦ inl tt
  | inr none ↦ inr none
  | inr (some a) ↦ elim (emplace_all infos) [
    | inl thrown ↦ inl tt
    | inr none ↦ inr none
    | inr (some ips) ↦ inr (some (a ∷ ips))
  ]
]

-- `service.empty() ? nullptr : service.c_str()`.
abbrev pub or_null : List ℕ → Option (List ℕ)
or_null [] = none
or_null (c ∷ s) = some (c ∷ s)

-- `resolve(host, service)`: what it returns, and what it prints.
unfoldable pub resolve : AddrInfo → List ℕ → List ℕ → (Unit {0} ⊎ Option (List SockAddr)) × List Out
resolve info [] service = (inr (some []), [])
resolve info (c ∷ host) service = elim (info (c ∷ host) (or_null service)) [
  | none ↦ (inr (some []), say "resolve host error: " ∷ raw (c ∷ host) ∷ endl ∷ [])
  | some infos ↦ (emplace_all infos, [])
]

-- The text of a host and of a service; `std::strcmp(sbuf, "0")`.
abbrev print_host : ℕ → List ℕ → List Out
print_host family host =
    if family == af_inet6 then say "[ " ∷ raw host ∷ say " ]" ∷ [] else raw host ∷ []

abbrev print_service : List ℕ → List Out
print_service service = if is_zero service then endl ∷ [] else say ":" ∷ raw service ∷ endl ∷ []
  where
    is_zero : List ℕ → Bool
    is_zero (c ∷ []) = c == b'0'
    is_zero _ = false

abbrev pub print_names : Option (List ℕ × List ℕ) → Option ℕ → Option (List Out)
print_names none family = some (say "[invalid address]" ∷ endl ∷ [])
print_names (some (host, service)) none = none
print_names (some (host, service)) (some family) =
    some (print_host family host ++ print_service service)

-- `print_addr(sa, slen)`: `none` where fewer than `slen` bytes can be read.
unfoldable pub print_sockaddr : NameInfo → Option (List ℕ) → ℕ → Option (List Out)
print_sockaddr names none slen = none
print_sockaddr names (some sa) slen =
    if leb slen (length sa) then print_names (names (take slen sa)) (first_u16 sa) else none

-- `print_addr(sa)`: the length is the default, `sizeof(sockaddr)`.
unfoldable pub print_addr : NameInfo → SockAddr → Option (List Out)
print_addr names a = print_sockaddr names a.addr inet_size
