-- ===== src/SockAddr/Proper.antt =====
-- include/sockaddr.h: the operations of the class, on addresses whose block is as their length says.
use ebc_node.Base.{
  ◌*◌, ◌||◌, ℕ, ◌+◌, ◌≤◌, ◌≡◌, refl, ◌⊎◌, inl, inr, true, false, Bool-cases, Option, none, some,
  List, ◌∷◌, ◌++◌, arith, ltb, ◌==◌, if◌then◌else◌, length, take, drop, length-append, length-take,
  length-drop, length-replicate, Option-cases, replicate,
}
use ebc_node.SockAddr.{
  SockAddr, af_inet, af_inet6, family_size, first_u16, le16, le32, write_at, get_family, set_family,
  new_addr, no_addr, set, set_port, set_ipv4,
}
use ebc_node.SockAddr.Fields.{IsSockAddr}

-- The lengths that a block can have: that of nothing, or from `sockaddr` up to `sockaddr_storage`.
abbrev IsSize : ℕ → Type 0
IsSize n = (n ≡ 0) ⊎ ((16 ≤ n) × (n ≤ 128))

-- An address whose block is as its length says.
abbrev pub IsProper : SockAddr → Type 0
IsProper a = IsSockAddr a × IsSize a.len

-- As many bytes as the length says.
abbrev pub HasBytes : Option (List ℕ) → ℕ → Type 0
HasBytes none n = n ≡ 0
HasBytes (some bytes) n = (n ≡ 0) ⊎ ((16 ≤ n) × (n ≤ length bytes))

-- The block of an address that is not empty.
block :
    (a : SockAddr) → IsProper a → 16 ≤ a.len → (m : List ℕ) × (a.addr ≡ some m) × (length m ≡ a.len)
block a p h = elim (Option-cases a.addr) [
  | inl lacks ↦ absurd (ground (arith, p.0))
  | inr (m, has) ↦ (m, has, ground (arith, p.0))
]

-- A block with bytes of it overwritten.
splice_length :
    (offset : ℕ) (new m : List ℕ)
    → offset + length new ≤ length m
    → length (take offset m ++ (new ++ drop (offset + length new) m)) ≡ length m
splice_length offset new m h = omega (
  arith,
  length-append (take offset m) (new ++ drop (offset + length new) m),
  length-append new (drop (offset + length new) m),
  length-take offset m,
  length-drop (offset + length new) m,
)

-- A write into it.
write_at-IsProper :
    (offset : ℕ) (new : List ℕ) (a : SockAddr)
    → IsProper a
    → 16 ≤ a.len
    → offset + length new ≤ 16
    → (b : SockAddr) × (write_at offset new a ≡ some b) × IsProper b
unfolding write_at
write_at-IsProper offset new a p full h =
    let (m, has, size) = block a p full in
    (
      record a { addr = some (take offset m ++ (new ++ drop (offset + length new) m)) },
      rw (has, write_at) (ground (arith, size)),
      ((omega arith, omega (arith, size, splice_length offset new m (omega (arith, size)))), p.1),
    )

-- The family is written where there is a block.
finish-IsProper :
    (f : ℕ) (a : SockAddr)
    → IsProper a
    → (b : SockAddr) × ((if ltb 2 a.len then write_at 0 (le16 f) a else some a) ≡ some b)
      × IsProper b
finish-IsProper f a p = elim p.1 [
  | inl empty ↦ (a, ground (arith, empty), p)
  | inr (full, _) ↦
      let (b, done, q) = write_at-IsProper 0 (le16 f) a p full (omega arith) in
      let long : ltb 2 a.len ≡ true = ground (arith, full) in (b, rw long done, q)
]

abbrev cleared : ℕ → SockAddr
cleared n = record { len = n; addr = if n == 0 then none else some (replicate n 0) }

cleared-IsProper : (n : ℕ) → IsSize n → IsProper (cleared n)
cleared-IsProper n size = elim (Bool-cases (n == 0)) [
  | inl empty ↦ rw empty (ground (arith, empty), size)
  | inr full ↦ rw full ((ground (arith, full), length-replicate n 0), size)
]

pub set_family-IsProper :
    (f : ℕ) (a : SockAddr) → IsProper a → (b : SockAddr) × (set_family f a ≡ some b) × IsProper b
unfolding set_family
set_family-IsProper f a p = elim (Bool-cases (family_size f == a.len)) [
  | inl fits ↦ let (b, done, q) = finish-IsProper f a p in (b, rw fits done, q)
  | inr other ↦
      let (b, done, q) =
        finish-IsProper f (cleared (family_size f))
          (cleared-IsProper (family_size f) (ground arith)) in
      (b, rw other done, q)
]

-- What `set` copies.
abbrev filled : ℕ → List ℕ → SockAddr
filled n bytes = record { len = n; addr = some (take n bytes) }

filled-IsProper :
    (n : ℕ) (bytes : List ℕ) → 16 ≤ n → n ≤ 128 → n ≤ length bytes → IsProper (filled n bytes)
filled-IsProper n bytes full small h =
    ((omega arith, omega (arith, h, length-take n bytes)), inr (full, small))

pub set-IsProper :
    (sa : Option (List ℕ)) (n : ℕ) (a : SockAddr)
    → HasBytes sa n
    → n ≤ 128
    → IsProper a
    → (b : SockAddr) × (set sa n a ≡ some b) × IsProper b
unfolding set
set-IsProper sa n a has small p = elim (Bool-cases (n == 0)) [
  | inl empty ↦ elim (Bool-cases (a.len == 0)) [
    | inl was ↦ (a, rw (empty, was, set) refl, p)
    | inr was ↦ (no_addr, rw (empty, was, set) refl, (refl, inl refl))
  ]
  | inr full ↦ copies sa has full
]
  where
    copies :
        (sa : Option (List ℕ))
        → HasBytes sa n
        → (n == 0) ≡ false
        → (b : SockAddr) × (set sa n a ≡ some b) × IsProper b
    copies none has full = absurd (ground (arith, has, full))
    copies (some bytes) (inl empty) full = absurd (ground (arith, empty, full))
    copies (some bytes) (inr (long, enough)) full = elim (Bool-cases (a.len == n)) [
      | inl same ↦
          let (m, old, size) = block a p (ground (arith, same, long)) in
          (
            filled n bytes,
            rw (full, same, old, set) (ground (arith, enough)),
            filled-IsProper n bytes long small enough,
          )
      | inr other ↦ (
        filled n bytes,
        rw (full, other, set) (ground (arith, enough)),
        filled-IsProper n bytes long small enough,
      )
    ]

pub new_addr-IsProper :
    (fresh : List ℕ) → 16 ≤ length fresh → (b : SockAddr) × (new_addr fresh ≡ some b) × IsProper b
unfolding new_addr
new_addr-IsProper fresh h =
    set_family-IsProper af_inet (record { len = 16; addr = some (take 16 fresh) })
      ((omega arith, omega (arith, h, length-take 16 fresh)), inr (omega arith, omega arith))

pub first_u16-defined : (m : List ℕ) → 2 ≤ length m → (v : ℕ) × (first_u16 m ≡ some v)
unfolding first_u16
first_u16-defined (x ∷ y ∷ rest) h = (x + 256 * y, refl)
first_u16-defined _ h = absurd (omega arith)

-- The family of a proper address can be read.
get_family-defined :
    (a : SockAddr) → IsProper a → (f : ℕ) × (get_family a ≡ some f) × ((f ≡ 0) ⊎ (16 ≤ a.len))
unfolding get_family first_u16
get_family-defined a p = elim p.1 [
  | inl empty ↦ (0, ground (arith, empty), inl refl)
  | inr (full, _) ↦
      let (m, has, size) = block a p full in
      let (f, first) = first_u16-defined m (omega (arith, size)) in
      let long : ltb 2 a.len ≡ true = ground (arith, full) in
      (f, rw (long, has, get_family) first, inr full)
]

pub set_port-IsProper :
    (port : ℕ) (a : SockAddr)
    → IsProper a
    → (b : SockAddr) × (set_port port a ≡ some b) × IsProper b
unfolding set_port
set_port-IsProper port a p =
    let (f, known, empty_or_full) = get_family-defined a p in
    elim (Bool-cases ((f == af_inet) || (f == af_inet6))) [
      | inl ip ↦
          let full : 16 ≤ a.len = ground (arith, ip, empty_or_full) in
          let (b, done, q) = write_at-IsProper 2 (le16 port) a p full (omega arith) in
          (b, rw (known, set_port) (ground (arith, ip, done)), q)
      | inr other ↦ (a, rw (known, set_port) (ground (arith, other)), p)
    ]

pub set_ipv4-IsProper :
    (ip : ℕ) (a : SockAddr)
    → IsProper a
    → ((b : SockAddr) × (set_ipv4 ip a ≡ some b) × IsProper b)
      ⊎ ((a.len ≡ 0) × (set_ipv4 ip a ≡ none))
unfolding set_ipv4 write_at
set_ipv4-IsProper ip a p = elim p.1 [
  | inl empty ↦ inr (empty, ground (arith, p.0))
  | inr (full, _) ↦ inl (write_at-IsProper 4 (le32 ip) a p full (omega arith))
]

pub no_addr-IsProper : IsProper no_addr
no_addr-IsProper = (refl, inl refl)
