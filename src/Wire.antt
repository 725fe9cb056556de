-- ===== src/Wire.antt =====
-- The calls that src/msg.pb.cc makes of the protobuf runtime (CodedInputStream, CodedOutputStream
-- and WireFormatLite), as an interface. A stream is the list of bytes that are left in it.
pub mod Laws
use ebc_node.Base.{ℕ, ◌≡◌, refl, ◌≢◌, ◌⊎◌, inl, inr, Bool, List, Option, none, some}

-- What `DO_` and the parse functions return. `stuck` is no value of the program: the loop of the
-- model ran out of fuel.
pub data Result {ℓ} (A : Type ℓ) : Type ℓ where
  ok : A → Result A
  failed : Result A
  stuck : Result A

infixl 5 ◌>>=◌
abbrev pub ◌>>=◌ {ℓ κ} : {A : Type ℓ} {B : Type κ} → Result A → (A → Result B) → Result B
ok a >>= f = f a
failed >>= f = failed
stuck >>= f = stuck

-- `ReadTagWithCutoffNoLastTag(127)`: `ended` is the tag 0 at the end of the message (after it
-- `ConsumedEntireMessage` holds); `tag t b rest` is a tag that was read, with the flag that it is
-- at most 127.
pub data TagRead : Type 0 where
  ended : TagRead
  tag : ℕ → Bool → List ℕ → TagRead

-- A call that fails is `none`; one that succeeds gives the value and what is left.
-- `read_delimited` reads a length and that many bytes: `ReadBytes`, `ReadString`, and the part of a
-- stream that `ReadMessage` opens to the message inside it.
pub record Wire : Type 0 where
  pub read_tag : List ℕ → TagRead
  pub read_uint32 : List ℕ → Option (ℕ × List ℕ)
  pub read_enum : List ℕ → Option (ℕ × List ℕ)
  pub read_delimited : List ℕ → Option (List ℕ × List ℕ)
  -- `SkipField(input, tag, unknown)`: the bytes that go to the unknown fields, and what is left.
  pub skip_field : ℕ → List ℕ → Option (List ℕ × List ℕ)
  -- `VerifyUtf8String(…, PARSE)`.
  pub verify_utf8 : List ℕ → Bool
  -- `GetProto3PreserveUnknownsDefault()`.
  pub preserve_unknowns : Bool
  -- `WriteUInt32`, `WriteEnum`, `WriteBytesMaybeAliased` and `WriteStringMaybeAliased`: field
  -- number, value. `write_message`: field number, cached size, the message's bytes.
  pub write_uint32 : ℕ → ℕ → List ℕ
  pub write_enum : ℕ → ℕ → List ℕ
  pub write_delimited : ℕ → List ℕ → List ℕ
  pub write_message : ℕ → ℕ → List ℕ → List ℕ
  -- `SerializeToArray(buffer, size)` of a message with these bytes: the buffer afterwards.
  pub write_array : List ℕ → ℕ → List ℕ → List ℕ
  -- `UInt32Size`, `EnumSize`, and of a length `BytesSize`, `StringSize`, `MessageSize`.
  pub uint32_size : ℕ → ℕ
  pub enum_size : ℕ → ℕ
  pub delimited_size : ℕ → ℕ

-- The value that a read gave goes into the message.
abbrev pub with_value {ℓ κ} :
    {A : Type ℓ} {M : Type κ} → Option (A × List ℕ) → (A → M) → Result (M × List ℕ)
with_value none f = failed
with_value (some (a, rest)) f = ok (f a, rest)

pub Result-cases {ℓ} :
    {A : Type ℓ} (r : Result A) → r ≢ stuck → ((a : A) × (r ≡ ok a)) ⊎ (r ≡ failed)
Result-cases (ok a) h = inl (a, refl)
Result-cases failed h = inr refl
Result-cases stuck h = absurd (h refl)

pub TagRead-cases :
    (r : TagRead) → (r ≡ ended) ⊎ ((t : ℕ) × (b : Bool) × (rest : List ℕ) × (r ≡ tag t b rest))
TagRead-cases ended = inl refl
TagRead-cases (tag t b rest) = inr (t, b, rest, refl)

-- Inversion of a successful bind.
pub >>=-eq-ok {ℓ κ} :
    {A : Type ℓ} {B : Type κ} (r : Result A) (f : A → Result B) {b : B}
    → (r >>= f) ≡ ok b
    → (a : A) × (r ≡ ok a) × (f a ≡ ok b)
>>=-eq-ok (ok a) f h = (a, refl, h)
>>=-eq-ok failed f h = cc
>>=-eq-ok stuck f h = cc
