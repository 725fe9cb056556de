-- ===== src/SockAddr/Lies.antt =====
-- include/sockaddr.h: where the port and the IPv4 address of an address lie that the engine makes, whatever
-- the size of the memory that it gets.
use ebc_node.Base.{ℕ, ◌%◌, ◌^◌, ◌<◌, ◌≡◌, some, List, [], ◌∷◌, arith}
use ebc_node.SockAddr.{
  SockAddr, first_u16, first_u32, write_at, get_family, set_family, new_addr, raw_port, set_port,
  set_ipv4, get_ipv4, endpoint,
}

-- The port and the address are there, within their widths.
pub record Lies (a : SockAddr) : Type 0 where
  pub port : ℕ
  pub ip : ℕ
  pub has_port : raw_port a ≡ some port
  pub has_ip : get_ipv4 a ≡ some ip
  pub port_fits : port < 2 ^ 16
  pub ip_fits : ip < 2 ^ 32

pub endpoint-Lies :
    (fresh : List ℕ) (port ip : ℕ) (a : SockAddr) → endpoint fresh port ip ≡ some a → Lies a
unfolding endpoint new_addr set_family write_at set_port get_family set_ipv4 first_u16 first_u32
    raw_port get_ipv4
endpoint-Lies ([]) port ip a e = ground (arith, e)
endpoint-Lies (b0 ∷ []) port ip a e = ground (arith, e)
endpoint-Lies (b0 ∷ b1 ∷ []) port ip a e = ground (arith, e)
endpoint-Lies (b0 ∷ b1 ∷ b2 ∷ []) port ip a e = ground (arith, e)
endpoint-Lies (b0 ∷ b1 ∷ b2 ∷ b3 ∷ []) port ip a e = ground (arith, e)
endpoint-Lies (b0 ∷ b1 ∷ b2 ∷ b3 ∷ b4 ∷ []) port ip a e = ground (arith, e)
endpoint-Lies (b0 ∷ b1 ∷ b2 ∷ b3 ∷ b4 ∷ b5 ∷ []) port ip a e = ground (arith, e)
endpoint-Lies (b0 ∷ b1 ∷ b2 ∷ b3 ∷ b4 ∷ b5 ∷ b6 ∷ []) port ip a e = ground (arith, e)
endpoint-Lies (b0 ∷ b1 ∷ b2 ∷ b3 ∷ b4 ∷ b5 ∷ b6 ∷ b7 ∷ rest) port ip a e = record {
  port = port % 2 ^ 16;
  ip = ip % 2 ^ 32;
  has_port = ground (arith, e);
  has_ip = ground (arith, e);
  port_fits = omega arith;
  ip_fits = omega arith;
}
