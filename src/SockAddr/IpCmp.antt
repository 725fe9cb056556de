-- ===== src/SockAddr/IpCmp.antt =====
-- include/sockaddr.h: `SockAddr::ipCmp`, the order of addresses without their ports.
use ebc_node.Base.{
  ℕ, ◌+◌, ◌^◌, ◌≤◌, ◌<◌, ◌≡◌, refl, sym, ap, ◌∙◌, ◌↔◌, Bool, false, not, Option, none, some, List,
  ◌++◌, arith, ltb, leb, ◌==◌, if◌then◌else◌, length, take, drop,
}
use ebc_node.SockAddr.{
  SockAddr, ◌>>=◌, af_inet, af_inet6, get_family, memcmp_lt, bytes_of, endpoint, le32, le16,
  first_u16,
}
use ebc_node.SockAddr.Fields.{endpoint_bytes}
use ebc_node.SockAddr.Order.{memcmp_irrefl, memcmp_total}

-- The part of a block that is compared: where it starts, and its size.
unfoldable ip_window : ℕ → ℕ → ℕ × ℕ
ip_window family len =
    if family == af_inet then (4, 4) else if family == af_inet6 then (8, 8) else (0, len)

-- To read behind the end of a block is undefined.
abbrev part : ℕ × ℕ → List ℕ → Option (List ℕ)
part (start, n) block =
    if leb (start + n) (length block) then some (take n (drop start block)) else none

-- `operator()`.
unfoldable pub ip_less : SockAddr → SockAddr → Option Bool
unfolding ip_window
ip_less a b =
    if not (a.len == b.len)
    then some (ltb a.len b.len)
    else get_family a >>= λ family. part (ip_window family a.len) (bytes_of a) >>= λ x.
        part (ip_window family a.len) (bytes_of b) >>= λ y. some (memcmp_lt x y)

-- An address as the engine makes it.
abbrev made : List ℕ → ℕ → ℕ → SockAddr
made fresh port ip = record {
  len = 16;
  addr = some (le16 2 ++ (le16 port ++ (le32 ip ++ take 8 (drop 8 fresh))));
}

made-eq :
    (fresh : List ℕ) (port ip : ℕ) (a : SockAddr)
    → 16 ≤ length fresh
    → endpoint fresh port ip ≡ some a
    → made fresh port ip ≡ a
made-eq fresh port ip a h e = inside (sym (endpoint_bytes fresh port ip h) ∙ e)
  where
    inside : {x y : SockAddr} → some x ≡ some y → x ≡ y
    inside q = cc

-- On two such addresses the order compares the IPv4 addresses as they lie in memory.
ip_less-made :
    (fresh fresh' : List ℕ) (port port' ip ip' : ℕ)
    → ip_less (made fresh port ip) (made fresh' port' ip') ≡ some (memcmp_lt (le32 ip) (le32 ip'))
unfolding ip_less get_family first_u16
ip_less-made fresh fresh' port port' ip ip' = ground arith

le32_injective : (a b : ℕ) → a < 2 ^ 32 → b < 2 ^ 32 → le32 a ≡ le32 b → a ≡ b
le32_injective a b ha hb e = ground arith

memcmp-le32 :
    (a b : ℕ)
    → a < 2 ^ 32
    → b < 2 ^ 32
    → memcmp_lt (le32 a) (le32 b) ≡ false
    → memcmp_lt (le32 b) (le32 a) ≡ false
    → a ≡ b
memcmp-le32 a b ha hb h h' = le32_injective a b ha hb (memcmp_total (le32 a) (le32 b) refl h h')

-- `ipCmp` looks at the IPv4 address only: of two addresses that the engine made, over 16 bytes of
-- fresh memory each and whatever their ports, neither is less than the other exactly when their
-- 32-bit IPv4 addresses are the same.
pub ip_less_same_ip :
    (fresh fresh' : List ℕ) (port port' ip ip' : ℕ) (a b : SockAddr)
    → 16 ≤ length fresh
    → 16 ≤ length fresh'
    → ip < 2 ^ 32
    → ip' < 2 ^ 32
    → endpoint fresh port ip ≡ some a
    → endpoint fresh' port' ip' ≡ some b
    → ((ip_less a b ≡ some false) × (ip_less b a ≡ some false)) ↔ (ip ≡ ip')
ip_less_same_ip fresh fresh' port port' ip ip' a b h h' hi hi' e e' =
    rw
      (
        ← made-eq fresh port ip a h e,
        ← made-eq fresh' port' ip' b h' e',
        ip_less-made fresh fresh' port port' ip ip',
        ip_less-made fresh' fresh port' port ip' ip,
      )
      (
        (λ (l, g). memcmp-le32 ip ip' hi hi' (inside l) (inside g)),
        (λ q. rw q (ap some (memcmp_irrefl (le32 ip')), ap some (memcmp_irrefl (le32 ip')))),
      )
  where
    inside : {x y : Bool} → some x ≡ some y → x ≡ y
    inside q = cc
