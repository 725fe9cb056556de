-- ===== src/Proto/Fields/Bounds.antt =====
-- How large a field can get.
use ebc_node.Base.{ℕ, ◌+◌, ◌^◌, ◌≤◌, ◌<◌, List, arith, length}
use ebc_node.Wire.{Wire}
use ebc_node.Wire.Laws.{WireLaws}
use ebc_node.Proto.Fields.{bytes_field_size, uint32_field_size, enum_field_size}

module _ {w : Wire} (laws : WireLaws w) where
  pub bytes_field_size-le : (s : List ℕ) → length s < 2 ^ 31 → bytes_field_size w s ≤ 6 + length s
  unfolding bytes_field_size
  bytes_field_size-le s h = ground (arith, laws.delimited_size-bound (length s) h)

  -- Bytes that are there take one for the tag besides.
  pub bytes_field_size-ge : (s : List ℕ) → 0 < length s → 1 + length s ≤ bytes_field_size w s
  unfolding bytes_field_size
  bytes_field_size-ge s h = ground (arith, laws.delimited_size-le (length s))

  pub uint32_field_size-le : (v : ℕ) → v < 2 ^ 32 → uint32_field_size w v ≤ 6
  unfolding uint32_field_size
  uint32_field_size-le v h = ground (arith, laws.uint32_size-le v h)

  pub enum_field_size-le : (v : ℕ) → v < 2 ^ 31 → enum_field_size w v ≤ 6
  unfolding enum_field_size
  enum_field_size-le v h = ground (arith, laws.enum_size-le v h)
