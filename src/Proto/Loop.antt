-- ===== src/Proto/Loop.antt =====
-- The loop of every `MergePartialFromCodedStream`, over the switch that handles one tag.
pub mod Keeps
pub mod Runs
use ebc_node.Base.{
  ℕ, zero, suc, ◌+◌, ◌*◌, ◌^◌, ◌/◌, ◌%◌, ◌&&◌, ◌≤◌, ◌<◌, ◌≡◌, refl, ◌∙◌, ◌≢◌, Bool, true, false,
  List, [], ◌++◌, Option, none, some, inl, inr, arith, ltb, not, ◌==◌, if◌then◌else◌, length,
  length-append, Bool-cases,
}
use ebc_node.Wire.{Wire, Result, ok, failed, stuck, ◌>>=◌, TagRead, ended, tag}
use ebc_node.Wire.Laws.{WireLaws, IsField, ReadsBack}
use ebc_node.Proto.Fields.{bytes_field, uint32_field, enum_field}

-- The switch is at `case f`, and the tag's low byte is the one expected there; otherwise, and for
-- a tag above the cut-off, control goes to `handle_unusual`.
unfoldable pub at_field : Bool → ℕ → ℕ → ℕ → Bool
at_field within t f byte = within && (t / 8 == f) && (t % 256 == byte)

-- `WireFormatLite::ReadMessage` (include/google/protobuf/wire_format_lite_inl.h, inline): the
-- message inside is parsed from its own bytes, and must end where they end.
abbrev pub read_message {ℓ κ} :
    {A : Type ℓ} {M : Type κ}
    → (List ℕ → Result (A × Bool))
    → Option (List ℕ × List ℕ)
    → (A → M)
    → Result (M × List ℕ)
read_message parse none f = failed
read_message parse (some (payload, left)) f = do
  (a, at_end) ← parse payload
  if at_end then ok (f a, left) else failed

-- `ReadString` and then `VerifyUtf8String(…, PARSE)`.
abbrev pub read_text {ℓ} :
    {M : Type ℓ} → Wire → Option (List ℕ × List ℕ) → (List ℕ → M) → Result (M × List ℕ)
read_text w none f = failed
read_text w (some (s, left)) f = if w.verify_utf8 s then ok (f s, left) else failed

module _ {ℓ} {M : Type ℓ} (w : Wire) (step : ℕ → Bool → List ℕ → M → Result (M × List ℕ)) where
  -- `for (;;) { p = input->ReadTag…; switch … }`. The tag 0 ends the message with success; the flag
  -- tells whether that was the end of the stream, which is what `ConsumedEntireMessage` answers.
  unfoldable pub parse_loop : ℕ → List ℕ → M → Result (M × Bool)
  parse_loop zero input m = stuck
  parse_loop (suc fuel) input m = elim (w.read_tag input) [
    | ended ↦ ok (m, true)
    | tag t within rest ↦ elim (t == 0) [
      | true ↦ ok (m, false)
      | false ↦ do (m', left) ← step t within rest m; parse_loop fuel left m'
    ]
  ]

  -- Each tag takes a byte at least, so one round more than there are bytes is enough.
  unfoldable pub merge_partial : List ℕ → M → Result (M × Bool)
  merge_partial input m = parse_loop (suc (length input)) input m
