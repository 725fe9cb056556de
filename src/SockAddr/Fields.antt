-- ===== src/SockAddr/Fields.antt =====
-- The fields of an IPv4 address, and what the operations keep.
use ebc_node.Base.{
  ℕ, ◌^◌, ◌≤◌, ◌<◌, ◌≡◌, refl, sym, ap, ◌∙◌, Option, none, some, List, ◌∷◌, ◌++◌, arith, length,
  take, drop, length-take, length-drop, take_all,
}
use ebc_node.SockAddr.{
  SockAddr, af_inet, le16, le32, first_u16, first_u32, write_at, get_family, set_family, new_addr,
  set, copy, assign, raw_port, ntohs, get_port, set_port, set_ipv4, get_ipv4, endpoint, equals,
  memcmp_eq, bytes_of,
}

-- `len` is the size of the block, and there is no block of size 0.
abbrev pub IsSockAddr : SockAddr → Type 0
IsSockAddr a = elim a.addr [ none ↦ a.len ≡ 0 | some m ↦ (0 < a.len) × (length m ≡ a.len) ]

-- A copy is the same address.
copy-eq : (o : SockAddr) → IsSockAddr o → copy o ≡ some o
unfolding copy set
copy-eq o v = ground (arith, v, take_all o.len (bytes_of o))

-- `operator=` makes the left address equal to the right one, for well-formed addresses.
pub assign-eq : (a o : SockAddr) → IsSockAddr a → IsSockAddr o → assign a o ≡ some o
unfolding assign set
assign-eq a o va vo = ground (arith, va, vo, take_all o.len (bytes_of o))

-- Where `set` of a well-formed address is defined, it leaves a well-formed address of the length
-- that was asked for.
pub set-IsSockAddr :
    (sa : Option (List ℕ)) (n : ℕ) (a b : SockAddr)
    → IsSockAddr a
    → set sa n a ≡ some b
    → IsSockAddr b × (b.len ≡ n)
unfolding set
set-IsSockAddr none n a b v e = ground (arith, v)
set-IsSockAddr (some bytes) n a b v e = ground (arith, v, length-take n bytes)

-- Memory of eight bytes at least, cell by cell.
data Cells (xs : List ℕ) : Type 0 where
  cells :
      (a b c d e f g h : ℕ) (rest : List ℕ) → xs ≡ a ∷ b ∷ c ∷ d ∷ e ∷ f ∷ g ∷ h ∷ rest → Cells xs

to_cells : (xs : List ℕ) → 8 ≤ length xs → Cells xs
to_cells (a ∷ b ∷ c ∷ d ∷ e ∷ f ∷ g ∷ h ∷ rest) v = cells a b c d e f g h rest refl
to_cells _ v = absurd (omega arith)

-- An IPv4 address that holds this port (as it lies in memory) and this address.
pub record Holds (port ip : ℕ) (a : SockAddr) : Type 0 where
  pub family : get_family a ≡ some af_inet
  pub port_lies : raw_port a ≡ some port
  pub ip_lies : get_ipv4 a ≡ some ip
  pub valid : IsSockAddr a

-- The bytes of `sin_zero` stay as `malloc` left them.
pub endpoint_bytes :
    (fresh : List ℕ) (port ip : ℕ)
    → 16 ≤ length fresh
    → endpoint fresh port ip
      ≡ some (record {
        len = 16;
        addr = some (le16 2 ++ (le16 port ++ (le32 ip ++ take 8 (drop 8 fresh))));
      })
unfolding endpoint new_addr set_family write_at set_port get_family set_ipv4 first_u16
endpoint_bytes fresh port ip h = go (to_cells fresh (omega arith))
  where
    go :
        Cells fresh
        → endpoint fresh port ip
          ≡ some (record {
            len = 16;
            addr = some (le16 2 ++ (le16 port ++ (le32 ip ++ take 8 (drop 8 fresh))));
          })
    go (cells a b c d e f g h' rest eq) = rw (eq) (ground arith)

-- A new address with a 16-bit port and a 32-bit address set holds both, is of the family AF_INET,
-- and its `getPort` is the port with its two bytes swapped; this needs 16 bytes of fresh memory.
pub endpoint-Holds :
    (fresh : List ℕ) (port ip : ℕ)
    → 16 ≤ length fresh
    → port < 2 ^ 16
    → ip < 2 ^ 32
    → (a : SockAddr) × (endpoint fresh port ip ≡ some a)
      × Holds port ip a
      × (get_port a ≡ some (ntohs port))
unfolding get_family raw_port get_ipv4 get_port first_u16 first_u32
endpoint-Holds fresh port ip h hp hi = (
  record { len = 16; addr = some (le16 2 ++ (le16 port ++ (le32 ip ++ take 8 (drop 8 fresh)))) },
  endpoint_bytes fresh port ip h,
  record {
    family = refl;
    port_lies = ap some (omega arith);
    ip_lies = ap some (omega arith);
    valid = omega (arith, length-take 8 (drop 8 fresh), length-drop 8 fresh);
  },
  ap some (omega arith),
)

-- Two addresses made from the same port and address, over 16 bytes of fresh memory each, compare
-- as `equals` as the eight bytes do that nothing initialises.
pub endpoint-equals :
    (fresh fresh' : List ℕ) (port ip : ℕ) (a b : SockAddr)
    → 16 ≤ length fresh
    → 16 ≤ length fresh'
    → endpoint fresh port ip ≡ some a
    → endpoint fresh' port ip ≡ some b
    → equals a b ≡ memcmp_eq (take 8 (drop 8 fresh)) (take 8 (drop 8 fresh'))
unfolding equals memcmp_eq
endpoint-equals fresh fresh' port ip a b h h' ea eb =
    rw
      (
        same (sym (endpoint_bytes fresh port ip h) ∙ ea),
        same (sym (endpoint_bytes fresh' port ip h') ∙ eb),
      )
      (ground arith)
  where
    same : {x y : SockAddr} → some x ≡ some y → y ≡ x
    same e = cc
