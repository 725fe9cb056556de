-- ===== src/Utils/Ports.antt =====
-- What the macros of utils.h compute, in plain arithmetic, and what they lose.
use ebc_node.Base.{ℕ, ◌+◌, ◌*◌, ◌/◌, ◌%◌, ◌^◌, ◌<◌, ◌≡◌, bit_and, arith}
use ebc_node.Base.Bits.{and_nibble_zero, and_nibble_f, bit_and-zero, or_disjoint}
use ebc_node.Utils.{com_port_nat, par_port, par_nat}

and_f000 : (v : ℕ) → bit_and v 0xf000 ≡ v / 4096 % 16 * 4096
and_f000 v = omega (
  arith,
  and_nibble_zero v 0xf00,
  and_nibble_zero (v / 16) 0xf0,
  and_nibble_zero (v / 16 / 16) 0xf,
  and_nibble_f (v / 16 / 16 / 16) 0,
  bit_and-zero (v / 16 / 16 / 16 / 16),
)

and_ffff : (v : ℕ) → v < 65536 → bit_and v 0xffff ≡ v
and_ffff v h = omega (
  arith,
  and_nibble_f v 0xfff,
  and_nibble_f (v / 16) 0xff,
  and_nibble_f (v / 16 / 16) 0xf,
  and_nibble_f (v / 16 / 16 / 16) 0,
  bit_and-zero (v / 16 / 16 / 16 / 16),
)

and_high : (v : ℕ) → v < 2 ^ 32 → bit_and v 0xffff_0000 ≡ v / 65536 * 65536
and_high v h = omega (
  arith,
  and_nibble_zero v 0xfff_f000,
  and_nibble_zero (v / 16) 0xff_ff00,
  and_nibble_zero (v / 16 / 16) 0xf_fff0,
  and_nibble_zero (v / 16 / 16 / 16) 0xffff,
  and_ffff (v / 16 / 16 / 16 / 16) (omega arith),
)

com_port_nat_sum :
    (port nat : ℕ) → port < 2 ^ 16 → com_port_nat port nat ≡ 65536 * port + nat / 4096 % 16 * 4096
unfolding com_port_nat
com_port_nat_sum port nat h =
    let wrap : port * 2 ^ 16 % 2 ^ 32 ≡ 65536 * port = omega arith in
    rw (wrap, and_f000 nat) (or_disjoint port _ (omega arith))

-- Reading the fields of any 32-bit value is a division.
par_port_lem : (v : ℕ) → v < 2 ^ 32 → par_port v ≡ v / 65536
unfolding par_port
par_port_lem v h = rw (and_high v h) (omega arith)

par_nat_lem : (v : ℕ) → par_nat v ≡ v / 4096 % 16
unfolding par_nat
par_nat_lem v = rw (and_f000 v) (omega arith)

pub com_port_nat-lt : (port nat : ℕ) → port < 2 ^ 16 → com_port_nat port nat < 2 ^ 32
com_port_nat-lt port nat h = omega (arith, com_port_nat_sum port nat h)

-- For every 16-bit port and every NAT argument, `parPort` gives back the port of `comPortNat`.
pub par_port-com_port_nat : (port nat : ℕ) → port < 2 ^ 16 → par_port (com_port_nat port nat) ≡ port
par_port-com_port_nat port nat h = omega (
  arith,
  par_port_lem (com_port_nat port nat) (com_port_nat-lt port nat h),
  com_port_nat_sum port nat h,
)

-- The NAT type does not survive: for every 16-bit port and every NAT type that the program has
-- (and any value below 4096), `parNat` of `comPortNat` is 0, which is `FULL_CLONE`.
pub par_nat-com_port_nat :
    (port nat : ℕ) → port < 2 ^ 16 → nat < 4096 → par_nat (com_port_nat port nat) ≡ 0
par_nat-com_port_nat port nat h hn =
    omega (arith, par_nat_lem (com_port_nat port nat), com_port_nat_sum port nat h)
