-- ===== src/Engine/World/Sends.antt =====
-- `UDT::send` of the bytes at the front of a buffer.
use ebc_node.Base.{ℕ, ◌≡◌, true, List, ◌++◌, arith, leb, length, length-append}

-- The bytes are there to be read.
pub front-fits : (bytes rest : List ℕ) → leb (length bytes) (length (bytes ++ rest)) ≡ true
front-fits bytes rest = ground (arith, length-append bytes rest)
