-- ===== src/SockAddr/Resolve.antt =====
-- src/utils.cpp: what `resolve` makes of the answer of the operating system.
use ebc_node.Base.{ℕ, ◌≤◌, ◌<◌, ◌≡◌, refl, inr, some, List, [], ◌∷◌, map, arith, length, take}
use ebc_node.SockAddr.{SockAddr, from_storage, set}
use ebc_node.SockAddr.Names.{AddrInfo, emplace_all, or_null, resolve}

-- The entries of a list that `getaddrinfo` makes: a socket address is of at most 128 bytes, and
-- they are there.
abbrev pub AreEntries : List (List ℕ × ℕ) → Type 0
AreEntries [] = Unit {0}
AreEntries ((sa, n) ∷ infos) = (0 < n) × (n ≤ 128) × (n ≤ length sa) × AreEntries infos

-- The address of an entry.
abbrev pub entry_addr : List ℕ × ℕ → SockAddr
entry_addr (sa, n) = record { len = n; addr = some (take n sa) }

from_storage-entry :
    (sa : List ℕ) (n : ℕ)
    → 0 < n
    → n ≤ 128
    → n ≤ length sa
    → from_storage (some sa) n ≡ inr (some (entry_addr (sa, n)))
unfolding from_storage set
from_storage-entry sa n pos small there = ground arith

emplace_all-AreEntries :
    (infos : List (List ℕ × ℕ))
    → AreEntries infos
    → emplace_all infos ≡ inr (some (map entry_addr infos))
unfolding emplace_all
emplace_all-AreEntries [] h = refl
emplace_all-AreEntries ((sa, n) ∷ infos) (pos, small, there, h) =
    rw (emplace_all, from_storage-entry sa n pos small there, emplace_all-AreEntries infos h)

-- For a host that is not empty, and an answer of proper entries: `resolve` throws nothing, prints
-- nothing, and returns the addresses of the entries in their order.
pub resolve-AreEntries :
    (info : AddrInfo) (c : ℕ) (host service : List ℕ) (infos : List (List ℕ × ℕ))
    → info (c ∷ host) (or_null service) ≡ some infos
    → AreEntries infos
    → resolve info (c ∷ host) service ≡ (inr (some (map entry_addr infos)), [])
unfolding resolve
resolve-AreEntries info c host service infos answer h =
    rw (resolve, answer, emplace_all-AreEntries infos h)
