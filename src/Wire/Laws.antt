-- ===== src/Wire/Laws.antt =====
-- The documented behaviour of the protobuf wire format that src/msg.pb.cc relies on, for fields
-- numbered 1 to 15, whose tag is one byte.
use ebc_node.Base.{
  ℕ, ◌+◌, ◌*◌, ◌^◌, ◌≤◌, ◌<◌, ◌≡◌, Bool, true, List, [], ◌++◌, Option, some, length, drop, All,
}
use ebc_node.Wire.{Wire, ended, tag}

-- The tag of the field, then the value, then whatever follows.
abbrev pub ReadsBack {ℓ} :
    {A : Type ℓ} → Wire → (List ℕ → Option (A × List ℕ)) → ℕ → A → List ℕ → List ℕ → Type ℓ
ReadsBack w read t a bytes rest =
    (mid : List ℕ) × (w.read_tag (bytes ++ rest) ≡ tag t true mid) × (read mid ≡ some (a, rest))

abbrev pub IsField : ℕ → Type 0
IsField f = (1 ≤ f) × (f < 16)

pub record WireLaws (w : Wire) : Type 0 where
  pub read_tag-nil : w.read_tag [] ≡ ended
  pub read-write_uint32 :
      (f v : ℕ) (rest : List ℕ)
      → IsField f
      → v < 2 ^ 32
      → ReadsBack w w.read_uint32 (f * 8) v (w.write_uint32 f v) rest
  pub read-write_enum :
      (f v : ℕ) (rest : List ℕ)
      → IsField f
      → v < 2 ^ 31
      → ReadsBack w w.read_enum (f * 8) v (w.write_enum f v) rest
  pub read-write_delimited :
      (f : ℕ) (bytes rest : List ℕ)
      → IsField f
      → length bytes < 2 ^ 31
      → ReadsBack w w.read_delimited (f * 8 + 2) bytes (w.write_delimited f bytes) rest
  -- A message whose cached size is right is written as its bytes are.
  pub write_message-write_delimited :
      (f : ℕ) (bytes : List ℕ) → w.write_message f (length bytes) bytes ≡ w.write_delimited f bytes
  pub length-write_uint32 :
      (f v : ℕ) → IsField f → v < 2 ^ 32 → length (w.write_uint32 f v) ≡ 1 + w.uint32_size v
  pub length-write_enum :
      (f v : ℕ) → IsField f → v < 2 ^ 31 → length (w.write_enum f v) ≡ 1 + w.enum_size v
  pub length-write_delimited :
      (f : ℕ) (bytes : List ℕ)
      → IsField f
      → length bytes < 2 ^ 31
      → length (w.write_delimited f bytes) ≡ 1 + w.delimited_size (length bytes)
  -- `SerializeToArray` writes all of the message, or, where it does not fit, nothing.
  pub write_array_fits :
      (bytes buffer : List ℕ) (size : ℕ)
      → length bytes ≤ size
      → size ≤ length buffer
      → w.write_array bytes size buffer ≡ bytes ++ drop (length bytes) buffer
  pub write_array_short :
      (bytes buffer : List ℕ) (size : ℕ)
      → size < length bytes
      → w.write_array bytes size buffer ≡ buffer
  -- A length-delimited field takes more room than its bytes.
  pub delimited_size-le : (n : ℕ) → n ≤ w.delimited_size n
  -- A 32-bit number, and a length before its bytes, take five bytes at most.
  pub uint32_size-le : (v : ℕ) → v < 2 ^ 32 → w.uint32_size v ≤ 5
  pub enum_size-le : (v : ℕ) → v < 2 ^ 31 → w.enum_size v ≤ 5
  pub delimited_size-bound : (n : ℕ) → n < 2 ^ 31 → w.delimited_size n ≤ 5 + n
  -- A read never puts bytes back, and a tag takes one at least.
  pub read_tag_takes :
      (input rest : List ℕ) (t : ℕ) (b : Bool)
      → w.read_tag input ≡ tag t b rest
      → length rest < length input
  pub read_uint32_takes :
      (input rest : List ℕ) (v : ℕ)
      → w.read_uint32 input ≡ some (v, rest)
      → length rest ≤ length input
  pub read_enum_takes :
      (input rest : List ℕ) (v : ℕ)
      → w.read_enum input ≡ some (v, rest)
      → length rest ≤ length input
  pub read_delimited_takes :
      (input rest bytes : List ℕ)
      → w.read_delimited input ≡ some (bytes, rest)
      → length rest ≤ length input
  pub skip_field_takes :
      (input rest bytes : List ℕ) (t : ℕ)
      → w.skip_field t input ≡ some (bytes, rest)
      → length rest ≤ length input
  pub verify_utf8_ascii : (s : List ℕ) → All (λ c. c < 128) s → w.verify_utf8 s ≡ true
