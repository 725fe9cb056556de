-- ===== src/Proto/Fields.antt =====
-- The pieces that the generated functions repeat for each field, by the field's type.
pub mod Bounds
use ebc_node.Base.{ℕ, ◌+◌, ◌^◌, ◌<◌, ◌≡◌, List, [], not, arith, ltb, ◌==◌, if◌then◌else◌, length}
use ebc_node.Wire.{Wire}
use ebc_node.Wire.Laws.{WireLaws, IsField}

-- `SerializeWithCachedSizes`: a field that has its default value is left out.
unfoldable pub bytes_field : Wire → ℕ → List ℕ → List ℕ
bytes_field w f s = if ltb 0 (length s) then w.write_delimited f s else []

unfoldable pub uint32_field : Wire → ℕ → ℕ → List ℕ
uint32_field w f v = if not (v == 0) then w.write_uint32 f v else []

unfoldable pub enum_field : Wire → ℕ → ℕ → List ℕ
enum_field w f v = if not (v == 0) then w.write_enum f v else []

-- The bytes that `WriteRaw` adds at the end.
unfoldable pub raw_unknown : Wire → List ℕ → List ℕ
raw_unknown w u = if w.preserve_unknowns then u else []

-- `ByteSizeLong`: what each field adds.
unfoldable pub bytes_field_size : Wire → List ℕ → ℕ
bytes_field_size w s = if ltb 0 (length s) then 1 + w.delimited_size (length s) else 0

unfoldable pub uint32_field_size : Wire → ℕ → ℕ
uint32_field_size w v = if not (v == 0) then 1 + w.uint32_size v else 0

unfoldable pub enum_field_size : Wire → ℕ → ℕ
enum_field_size w v = if not (v == 0) then 1 + w.enum_size v else 0

-- `MergeFrom`: a field is taken over unless it has its default value.
unfoldable pub merge_bytes : List ℕ → List ℕ → List ℕ
merge_bytes old from = if ltb 0 (length from) then from else old

unfoldable pub merge_number : ℕ → ℕ → ℕ
merge_number old from = if not (from == 0) then from else old

pub raw_unknown-nil : (w : Wire) → raw_unknown w [] ≡ []
unfolding raw_unknown
raw_unknown-nil w = ground arith

pub merge_bytes-nil : (s : List ℕ) → merge_bytes [] s ≡ s
unfolding merge_bytes
merge_bytes-nil s = ground arith

pub merge_number-zero : (v : ℕ) → merge_number 0 v ≡ v
unfolding merge_number
merge_number-zero v = ground arith

-- Each field takes the room that its size function says.
module _ {w : Wire} (laws : WireLaws w) where
  pub length-bytes_field :
      (f : ℕ) (s : List ℕ)
      → IsField f
      → length s < 2 ^ 31
      → length (bytes_field w f s) ≡ bytes_field_size w s
  unfolding bytes_field bytes_field_size
  length-bytes_field f s hf h = ground (arith, laws.length-write_delimited f s hf h)

  pub length-uint32_field :
      (f v : ℕ) → IsField f → v < 2 ^ 32 → length (uint32_field w f v) ≡ uint32_field_size w v
  unfolding uint32_field uint32_field_size
  length-uint32_field f v hf h = ground (arith, laws.length-write_uint32 f v hf h)

  pub length-enum_field :
      (f v : ℕ) → IsField f → v < 2 ^ 31 → length (enum_field w f v) ≡ enum_field_size w v
  unfolding enum_field enum_field_size
  length-enum_field f v hf h = ground (arith, laws.length-write_enum f v hf h)
