-- ===== src/Utils.antt =====
-- utils.h: the constants and the three macros that pack a port and a NAT type into a uint32.
pub mod Ports
use ebc_node.Base.{ℕ, ◌+◌, ◌*◌, ◌/◌, ◌%◌, ◌^◌, bit_and, bit_or, List, [], ◌∷◌, Option}

-- `ID_LENGTH`.
abbrev pub id_length : ℕ
id_length = 20

-- `SRV_PORT`.
abbrev pub srv_port : ℕ
srv_port = 9444

-- `NODE_PORT`, and `SUPER_NODE`, the bytes of "111.230.194.219".
abbrev node_port : ℕ
node_port = 9443

abbrev super_node : List ℕ
super_node =
    b'1' ∷ b'1' ∷ b'1' ∷ b'.' ∷ b'2' ∷ b'3' ∷ b'0' ∷ b'.' ∷ b'1' ∷ b'9' ∷ b'4' ∷ b'.' ∷ b'2' ∷ b'1'
    ∷ b'9' ∷ []

-- `NET_VERSION`, the bytes of "V0.0.0".
abbrev pub net_version : List ℕ
net_version = b'V' ∷ b'0' ∷ b'.' ∷ b'0' ∷ b'.' ∷ b'0' ∷ []

-- `comPortNat(port,nat)` as the C++ grammar reads it: `<<` binds tighter than `&`, so the mask is
-- `0xf << 12` and the operand `nat` is not shifted. The shift wraps at 32 bits.
unfoldable pub com_port_nat : ℕ → ℕ → ℕ
com_port_nat port nat = bit_or (port * 2 ^ 16 % 2 ^ 32) (bit_and nat 0xf000)

-- `parPort(value)`.
unfoldable pub par_port : ℕ → ℕ
par_port value = bit_and value 0xffff_0000 / 2 ^ 16

-- `parNat(value)`.
unfoldable pub par_nat : ℕ → ℕ
par_nat value = bit_and value 0xf000 / 2 ^ 12

-- `Sp`, a shared pointer: `none` is the null pointer.
abbrev pub Sp {ℓ} : Type ℓ → Type ℓ
Sp A = Option A
