-- ===== src/Tests/SimpleWire.antt =====
-- A concrete wire: tags of one byte, and varints that are always padded to five bytes, which a
-- reader of the format accepts.
use ebc_node.Base.{
  ℕ, ◌+◌, ◌-◌, ◌*◌, ◌/◌, ◌%◌, ◌≤◌, ◌<◌, ◌≡◌, refl, ap, ◌∙◌, inl, inr, Bool, true, ◌&&◌, Option,
  none, some, List, [], ◌∷◌, ◌++◌, arith, ltb, leb, ◌==◌, if◌then◌else◌, Bool-cases, length, take,
  drop, All, length-append, length-drop, take-append, drop-append,
}
use ebc_node.Wire.{Wire, TagRead, ended, tag}
use ebc_node.Wire.Laws.{WireLaws}

abbrev read_tag : List ℕ → TagRead
read_tag [] = ended
read_tag (b ∷ rest) = if b == 0 then ended else tag b (ltb b 128) rest

abbrev varint : ℕ → List ℕ
varint v =
    (128 + v % 128)
    ∷ (128 + v / 128 % 128)
    ∷ (128 + v / 128 / 128 % 128)
    ∷ (128 + v / 128 / 128 / 128 % 128)
    ∷ (v / 128 / 128 / 128 / 128)
    ∷ []

abbrev read_varint : List ℕ → Option (ℕ × List ℕ)
read_varint (a ∷ b ∷ c ∷ d ∷ e ∷ rest) =
    some (a % 128 + 128 * (b % 128 + 128 * (c % 128 + 128 * (d % 128 + 128 * e))), rest)
read_varint _ = none

abbrev split_at : Option (ℕ × List ℕ) → Option (List ℕ × List ℕ)
split_at none = none
split_at (some (n, rest)) = if leb n (length rest) then some (take n rest, drop n rest) else none

abbrev read_delimited : List ℕ → Option (List ℕ × List ℕ)
read_delimited input = split_at (read_varint input)

abbrev write_delimited : ℕ → ℕ → List ℕ → List ℕ
write_delimited f n bytes = (f * 8 + 2) ∷ (varint n ++ bytes)

abbrev skipped {ℓ} : {A : Type ℓ} → ℕ → List ℕ → Option (A × List ℕ) → Option (List ℕ × List ℕ)
skipped t input none = none
skipped t input (some (a, rest)) = some (t ∷ take (length input - length rest) input, rest)

abbrev skip_field : ℕ → List ℕ → Option (List ℕ × List ℕ)
skip_field t input =
    if t % 8 == 0
    then skipped t input (read_varint input)
    else if t % 8 == 2
    then skipped t input (read_delimited input)
    else none

abbrev is_ascii : List ℕ → Bool
is_ascii [] = true
is_ascii (c ∷ s) = ltb c 128 && is_ascii s

abbrev write_array : List ℕ → ℕ → List ℕ → List ℕ
write_array bytes size buffer =
    if leb (length bytes) size then bytes ++ drop (length bytes) buffer else buffer

abbrev pub simple : Wire
simple = record {
  read_tag = read_tag;
  read_uint32 = read_varint;
  read_enum = read_varint;
  read_delimited = read_delimited;
  skip_field = skip_field;
  verify_utf8 = is_ascii;
  preserve_unknowns = true;
  write_uint32 = λ f v. (f * 8) ∷ varint v;
  write_enum = λ f v. (f * 8) ∷ varint v;
  write_delimited = λ f bytes. write_delimited f (length bytes) bytes;
  write_message = write_delimited;
  write_array = write_array;
  uint32_size = λ v. 5;
  enum_size = λ v. 5;
  delimited_size = λ n. 5 + n;
}

read_varint-varint : (v : ℕ) (rest : List ℕ) → read_varint (varint v ++ rest) ≡ some (v, rest)
read_varint-varint v rest = ap (λ n. some (n, rest)) (omega arith)

read_varint_takes :
    (input rest : List ℕ) (v : ℕ) → read_varint input ≡ some (v, rest) → length rest ≤ length input
read_varint_takes [] rest v h = cc
read_varint_takes (a ∷ []) rest v h = cc
read_varint_takes (a ∷ b ∷ []) rest v h = cc
read_varint_takes (a ∷ b ∷ c ∷ []) rest v h = cc
read_varint_takes (a ∷ b ∷ c ∷ d ∷ []) rest v h = cc
read_varint_takes (a ∷ b ∷ c ∷ d ∷ e ∷ more) rest v h = ground arith

split_at_takes :
    (o : Option (ℕ × List ℕ)) (bytes rest : List ℕ) (m : ℕ)
    → ((n : ℕ) (more : List ℕ) → o ≡ some (n, more) → length more ≤ m)
    → split_at o ≡ some (bytes, rest)
    → length rest ≤ m
split_at_takes none bytes rest m le h = cc
split_at_takes (some (n, more)) bytes rest m le h =
    ground (arith, length-drop n more, le n more refl)

read_delimited_takes :
    (input rest bytes : List ℕ)
    → read_delimited input ≡ some (bytes, rest)
    → length rest ≤ length input
read_delimited_takes input rest bytes h =
    split_at_takes (read_varint input) bytes rest (length input)
      (λ n more e. read_varint_takes input more n e) h

skipped_takes {ℓ} :
    {A : Type ℓ} (t : ℕ) (input : List ℕ) (o : Option (A × List ℕ)) (bytes rest : List ℕ)
    → ((a : A) (more : List ℕ) → o ≡ some (a, more) → length more ≤ length input)
    → skipped t input o ≡ some (bytes, rest)
    → length rest ≤ length input
skipped_takes t input none bytes rest le h = cc
skipped_takes t input (some (a, more)) bytes rest le h = ground (arith, le a more refl)

skip_field_takes :
    (input rest bytes : List ℕ) (t : ℕ)
    → skip_field t input ≡ some (bytes, rest)
    → length rest ≤ length input
skip_field_takes input rest bytes t = elim (Bool-cases (t % 8 == 0)) [
  | inl e ↦ rw e (
      skipped_takes t input (read_varint input) bytes rest
        (λ n more. read_varint_takes input more n))
  | inr e ↦ elim (Bool-cases (t % 8 == 2)) [
    | inl d ↦
        rw (e, d)
          (skipped_takes t input (read_delimited input) bytes rest
            (λ b more. read_delimited_takes input more b))
    | inr d ↦ rw (e, d) (λ h. cc)
  ]
]

read_delimited-varint :
    (bytes rest : List ℕ)
    → read_delimited (varint (length bytes) ++ (bytes ++ rest)) ≡ some (bytes, rest)
read_delimited-varint bytes rest =
    ap split_at (read_varint-varint (length bytes) (bytes ++ rest))
    ∙ rw (fits, take-append bytes rest, drop-append bytes rest) refl
  where
    fits : leb (length bytes) (length (bytes ++ rest)) ≡ true
    fits = ground (arith, length-append bytes rest)

read_tag_takes :
    (input rest : List ℕ) (t : ℕ) (b : Bool)
    → read_tag input ≡ tag t b rest
    → length rest < length input
read_tag_takes [] rest t b h = cc
read_tag_takes (c ∷ input) rest t b h = ground arith

write_array_fits :
    (bytes buffer : List ℕ) (size : ℕ)
    → length bytes ≤ size
    → size ≤ length buffer
    → write_array bytes size buffer ≡ bytes ++ drop (length bytes) buffer
write_array_fits bytes buffer size p q = ground arith

write_array_short :
    (bytes buffer : List ℕ) (size : ℕ)
    → size < length bytes
    → write_array bytes size buffer ≡ buffer
write_array_short bytes buffer size p = ground arith

read_tag-tag : (t : ℕ) (rest : List ℕ) → 0 < t → t < 128 → read_tag (t ∷ rest) ≡ tag t true rest
read_tag-tag t rest p q = ground arith

is_ascii-All : (s : List ℕ) → All (λ c. c < 128) s → is_ascii s ≡ true
is_ascii-All [] h = refl
is_ascii-All (c ∷ s) (h, hs) = ground (arith, is_ascii-All s hs)

pub simple-WireLaws : WireLaws simple
simple-WireLaws = record {
  read_tag-nil = refl;
  read-write_uint32 = λ f v rest (lo, hi) bound. (
    varint v ++ rest,
    read_tag-tag (f * 8) _ (omega arith) (omega arith),
    read_varint-varint v rest,
  );
  read-write_enum = λ f v rest (lo, hi) bound. (
    varint v ++ rest,
    read_tag-tag (f * 8) _ (omega arith) (omega arith),
    read_varint-varint v rest,
  );
  read-write_delimited = λ f bytes rest (lo, hi) bound. (
    varint (length bytes) ++ (bytes ++ rest),
    read_tag-tag (f * 8 + 2) _ (omega arith) (omega arith),
    read_delimited-varint bytes rest,
  );
  write_message-write_delimited = λ f bytes. refl;
  length-write_uint32 = λ f v field bound. refl;
  length-write_enum = λ f v field bound. refl;
  length-write_delimited = λ f bytes field bound. omega arith;
  write_array_fits = write_array_fits;
  write_array_short = write_array_short;
  delimited_size-le = λ n. omega arith;
  uint32_size-le = λ v h. omega arith;
  enum_size-le = λ v h. omega arith;
  delimited_size-bound = λ n h. omega arith;
  read_tag_takes = read_tag_takes;
  read_uint32_takes = read_varint_takes;
  read_enum_takes = read_varint_takes;
  read_delimited_takes = read_delimited_takes;
  skip_field_takes = skip_field_takes;
  verify_utf8_ascii = is_ascii-All;
}
