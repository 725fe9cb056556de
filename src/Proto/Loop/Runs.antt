-- ===== src/Proto/Loop/Runs.antt =====
-- How the parse loop runs over the bytes that the serialisers write, and that it always ends.
use ebc_node.Base.{
  ℕ, zero, suc, ◌+◌, ◌*◌, ◌^◌, ◌<◌, ◌≡◌, refl, ◌≢◌, inl, inr, Bool, true, false, Option, some, List,
  [], ◌∷◌, ◌++◌, arith, ltb, ◌==◌, Bool-cases, length, length-append,
}
use ebc_node.Wire.{Wire, Result, ok, stuck, tag}
use ebc_node.Wire.Laws.{WireLaws, IsField, ReadsBack}
use ebc_node.Proto.Fields.{bytes_field, uint32_field, enum_field}
use ebc_node.Wire.{Result-cases, TagRead-cases}
use ebc_node.Proto.Loop.{parse_loop, merge_partial}
use mathlib.Core.Path.{subst}
use ebc_node.Proto.Loop.Keeps.{Keeps}

module _ {ℓ} {M : Type ℓ} {w : Wire} (laws : WireLaws w) where
  module _ (step : ℕ → Bool → List ℕ → M → Result (M × List ℕ)) where
    -- With fuel above the input's length the loop reads all of `input`, from `m` to `n`.
    abbrev pub Parses : List ℕ → M → M → Type ℓ
    Parses input m n =
        (fuel : ℕ) → length input < fuel → parse_loop w step fuel input m ≡ ok (n, true)

    pub Parses-end : (m : M) → Parses [] m m
    unfolding parse_loop
    Parses-end m zero h = absurd (omega arith)
    Parses-end m (suc fuel) h = rw (laws.read_tag-nil, parse_loop)

    -- One tag and its value, then the rest.
    Parses-field :
        (input mid rest : List ℕ) (t : ℕ) (m m' n : M)
        → w.read_tag input ≡ tag t true mid
        → (t == 0) ≡ false
        → step t true mid m ≡ ok (m', rest)
        → length rest < length input
        → Parses rest m' n
        → Parses input m n
    unfolding parse_loop
    Parses-field input mid rest t m m' n read nonzero done shorter next zero h =
        absurd (omega arith)
    Parses-field input mid rest t m m' n read nonzero done shorter next (suc fuel) h =
        rw (read, parse_loop, nonzero, done) (next fuel (omega arith))

    -- A value written by `write` and read back by the switch is one round of the loop.
    Parses-written :
        {A : Type 0} (read : List ℕ → Option (A × List ℕ)) (f t : ℕ) (a : A) (bytes rest : List ℕ)
        (m m' n : M)
        → ReadsBack w read t a bytes rest
        → (t == 0) ≡ false
        → 0 < length bytes
        → ((mid : List ℕ) → read mid ≡ some (a, rest) → step t true mid m ≡ ok (m', rest))
        → Parses rest m' n
        → Parses (bytes ++ rest) m n
    Parses-written read f t a bytes rest m m' n (mid, tagged, value) nonzero some_byte handled
          next =
        Parses-field (bytes ++ rest) mid rest t m m' n tagged nonzero (handled mid value)
          (omega (arith, length-append bytes rest)) next

    -- The three kinds of field, left out where they have their default value.
    pub Parses-uint32 :
        (f v : ℕ) (rest : List ℕ) (m m' n : M)
        → IsField f
        → v < 2 ^ 32
        → (v ≡ 0 → m' ≡ m)
        → ((mid : List ℕ)
            → w.read_uint32 mid ≡ some (v, rest)
            → step (f * 8) true mid m ≡ ok (m', rest))
        → Parses rest m' n
        → Parses (uint32_field w f v ++ rest) m n
    unfolding uint32_field
    Parses-uint32 f v rest m m' n hf h default handled next = elim (Bool-cases (v == 0)) [
      | inl zero_value ↦
          rw (zero_value) (subst (λ x. Parses rest x n) (default (ground arith)) next)
      | inr nonzero ↦ rw (nonzero) (
          Parses-written w.read_uint32 f (f * 8) v (w.write_uint32 f v) rest m m' n
            (laws.read-write_uint32 f v rest hf h) (ground arith)
            (omega (arith, laws.length-write_uint32 f v hf h)) handled next)
    ]

    pub Parses-enum :
        (f v : ℕ) (rest : List ℕ) (m m' n : M)
        → IsField f
        → v < 2 ^ 31
        → (v ≡ 0 → m' ≡ m)
        → ((mid : List ℕ)
            → w.read_enum mid ≡ some (v, rest)
            → step (f * 8) true mid m ≡ ok (m', rest))
        → Parses rest m' n
        → Parses (enum_field w f v ++ rest) m n
    unfolding enum_field
    Parses-enum f v rest m m' n hf h default handled next = elim (Bool-cases (v == 0)) [
      | inl zero_value ↦
          rw (zero_value) (subst (λ x. Parses rest x n) (default (ground arith)) next)
      | inr nonzero ↦ rw (nonzero) (
          Parses-written w.read_enum f (f * 8) v (w.write_enum f v) rest m m' n
            (laws.read-write_enum f v rest hf h) (ground arith)
            (omega (arith, laws.length-write_enum f v hf h)) handled next)
    ]

    pub Parses-delimited :
        (f : ℕ) (s rest : List ℕ) (m m' n : M)
        → IsField f
        → length s < 2 ^ 31
        → ((mid : List ℕ)
            → w.read_delimited mid ≡ some (s, rest)
            → step (f * 8 + 2) true mid m ≡ ok (m', rest))
        → Parses rest m' n
        → Parses (w.write_delimited f s ++ rest) m n
    Parses-delimited f s rest m m' n hf h handled next =
        Parses-written w.read_delimited f (f * 8 + 2) s (w.write_delimited f s) rest m m' n
          (laws.read-write_delimited f s rest hf h) (ground arith)
          (omega (arith, laws.length-write_delimited f s hf h)) handled next

    pub Parses-bytes :
        (f : ℕ) (s rest : List ℕ) (m m' n : M)
        → IsField f
        → length s < 2 ^ 31
        → (s ≡ [] → m' ≡ m)
        → ((mid : List ℕ)
            → w.read_delimited mid ≡ some (s, rest)
            → step (f * 8 + 2) true mid m ≡ ok (m', rest))
        → Parses rest m' n
        → Parses (bytes_field w f s ++ rest) m n
    unfolding bytes_field
    Parses-bytes f [] rest m m' n hf h default handled next =
        subst (λ x. Parses rest x n) (default refl) next
    Parses-bytes f (c ∷ s) rest m m' n hf h default handled next =
        rw (nonempty) (Parses-delimited f (c ∷ s) rest m m' n hf h handled next)
      where
        nonempty : ltb 0 (suc (length s)) ≡ true
        nonempty = ground arith

    pub merge_partial-Parses :
        (input : List ℕ) (m n : M) → Parses input m n → merge_partial w step input m ≡ ok (n, true)
    unfolding merge_partial
    merge_partial-Parses input m n h = h (suc (length input)) (omega arith)

    -- A switch that never gets stuck and never puts bytes back.
    abbrev pub Advances : Type ℓ
    Advances = (t : ℕ) (b : Bool) (input : List ℕ) (m : M) → Keeps input (step t b input m)

    parse_loop-ne-stuck :
        Advances
        → (fuel : ℕ) (input : List ℕ) (m : M) → length input < fuel
        → parse_loop w step fuel input m ≢ stuck
    unfolding parse_loop
    parse_loop-ne-stuck adv zero input m h = absurd (omega arith)
    parse_loop-ne-stuck adv (suc fuel) input m h = elim (TagRead-cases (w.read_tag input)) [
      | inl e ↦ rw (e, parse_loop) (λ p. cc)
      | inr (t, b, rest, e) ↦ elim (Bool-cases (t == 0)) [
        | inl z ↦ rw (e, parse_loop, z) (λ p. cc)
        | inr nz ↦ elim (Result-cases (step t b rest m) (adv t b rest m).0) [
          | inr f ↦ rw (e, parse_loop, nz, f) (λ p. cc)
          | inl ((m', left), o) ↦
              rw (e, parse_loop, nz, o)
                (parse_loop-ne-stuck adv fuel left m' (
                  omega
                    (arith, laws.read_tag_takes input rest t b e, (adv t b rest m).1 m' left o)))
        ]
      ]
    ]

    pub merge_partial-ne-stuck :
        Advances → (input : List ℕ) (m : M) → merge_partial w step input m ≢ stuck
    unfolding merge_partial
    merge_partial-ne-stuck adv input m =
        parse_loop-ne-stuck adv (suc (length input)) input m (omega arith)
