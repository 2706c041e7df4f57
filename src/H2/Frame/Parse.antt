-- ===== src/H2/Frame/Parse.antt =====
-- What RFC 9113 says a receiver reads: one frame off the wire (§4.1), and the parts of the payloads
-- of the frames that src/h2/frame.rs builds. It is written from the RFC, without the builders.
use blasthttp.Common.{
  ℕ, ◌+◌, ◌-◌, ◌*◌, ◌/◌, ◌%◌, ◌^◌, Bool, true, false, if◌then◌else◌, leb, ltb, Option, none, some,
  List, [], ◌∷◌, length, take, drop, ◌≡◌, ap,
}
use blasthttp.Common.Bytes.{Bytes}

pub record Frame : Type 0 where
  pub frame_type : ℕ
  pub flags : ℕ
  pub stream_id : ℕ
  pub payload : Bytes

abbrev pub word : ℕ → ℕ → ℕ → ℕ → ℕ
word a b c d = a * 2 ^ 24 + b * 2 ^ 16 + c * 2 ^ 8 + d

-- A frame and the bytes behind it; the reserved bit is ignored.
unfoldable pub parse_frame : Bytes → Option (Frame × Bytes)
parse_frame (a ∷ b ∷ c ∷ t ∷ f ∷ s ∷ u ∷ v ∷ w ∷ rest) =
    let len = a * 2 ^ 16 + b * 2 ^ 8 + c in
    if leb len (length rest)
    then some (
      record {
        frame_type = t;
        flags = f;
        stream_id = word s u v w % 2 ^ 31;
        payload = take len rest;
      },
      drop len rest,
    )
    else none
parse_frame _ = none

-- Whether a flag, a power of two, is set.
abbrev pub has_flag : ℕ → ℕ → Bool
has_flag flags flag = ltb 0 (flags / flag % 2)

-- Takes the padding off a payload (§6.1).
abbrev pub strip_padding : Bool → Bytes → Option Bytes
strip_padding false payload = some payload
strip_padding true [] = none
strip_padding true (p ∷ rest) =
    if leb p (length rest) then some (take (length rest - p) rest) else none

-- Takes a PRIORITY field off the front (§6.2, §6.3).
abbrev pub strip_priority : Bool → Bytes → Option (Option (ℕ × ℕ × Bool) × Bytes)
strip_priority false payload = some (none, payload)
strip_priority true (a ∷ b ∷ c ∷ d ∷ weight ∷ rest) =
    some (some (word a b c d % 2 ^ 31, weight, ltb 127 a), rest)
strip_priority true _ = none

-- The identifiers and values of a SETTINGS payload (§6.5.1).
unfoldable pub parse_settings : Bytes → Option (List (ℕ × ℕ))
parse_settings [] = some []
parse_settings (i ∷ j ∷ a ∷ b ∷ c ∷ d ∷ rest) = elim (parse_settings rest) [
  | none ↦ none
  | some more ↦ some ((i * 2 ^ 8 + j, word a b c d) ∷ more)
]
parse_settings _ = none

abbrev then_priority : Bool → Option Bytes → Option (Option (ℕ × ℕ × Bool) × Bytes)
then_priority priority none = none
then_priority priority (some inner) = strip_priority priority inner

unfoldable pub fields_of : Bool → Bool → Bytes → Option (Option (ℕ × ℕ × Bool) × Bytes)
fields_of padded priority payload = then_priority priority (strip_padding padded payload)

pub fields_of_lem :
    (padded priority : Bool) (payload inner : Bytes)
    → strip_padding padded payload ≡ some inner
    → fields_of padded priority payload ≡ strip_priority priority inner
unfolding fields_of
fields_of_lem padded priority payload inner h = ap (then_priority priority) h

-- The fields of a HEADERS payload: the priority, if there is one, and the field block fragment.
unfoldable pub header_fields : Frame → Option (Option (ℕ × ℕ × Bool) × Bytes)
header_fields f = fields_of (has_flag f.flags 0x08) (has_flag f.flags 0x20) f.payload

-- The data of a DATA payload.
unfoldable pub data_bytes : Frame → Option Bytes
data_bytes f = strip_padding (has_flag f.flags 0x08) f.payload

-- A 32-bit field in front of a payload.
abbrev pub read_word : Bytes → Option (ℕ × Bytes)
read_word (a ∷ b ∷ c ∷ d ∷ rest) = some (word a b c d, rest)
read_word _ = none
