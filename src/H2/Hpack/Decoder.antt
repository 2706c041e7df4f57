-- ===== src/H2/Hpack/Decoder.antt =====
-- `Decoder::decode_headers` of src/h2/hpack.rs.
pub mod Progress
pub mod Safety
pub mod Updates
use blasthttp.Common.{
  ℕ, zero, suc, bit_and, not, if◌then◌else◌, ltb, ◌==◌, Option, none, some, List, [], ◌∷◌, ◌++◌,
  length, get_elem?,
}
use blasthttp.Common.Bytes.{Bytes}
use blasthttp.Common.Result.{Result, ok, err, ◌>>=◌}
use blasthttp.H2.Hpack.Integer.{DecodeError, table_size_too_large, read_integer}
use blasthttp.H2.Hpack.Octets.{read_string}
use blasthttp.H2.Hpack.Table.{
  DecodedHeader, Decoder, lookup_index, add_to_dynamic_table, resize_table,
}

-- One field: the position behind it, the header if there is one, and the decoder. A field that fails
-- leaves the decoder as it was.
pub record Field : Type 0 where
  pub next : ℕ
  pub header : Option DecodedHeader
  pub decoder : Decoder

-- A name by its index, or as a string when the index is 0.
unfoldable pub read_name : Decoder → Bytes → ℕ × ℕ → Result DecodeError (Bytes × ℕ)
read_name d block (idx, pos) =
    let literal = read_string block pos in
    let indexed = lookup_index d idx >>= λ (e : DecodedHeader). ok (e.0, pos) in
    if idx == 0 then literal else indexed

unfoldable pub read_value : Bytes → Bytes × ℕ → Result DecodeError (DecodedHeader × ℕ)
read_value block (name, pos) = do (value, p) ← read_string block pos; ok ((name, value), p)

unfoldable pub read_literal : Decoder → Bytes → ℕ → ℕ → Result DecodeError (DecodedHeader × ℕ)
unfolding read_name read_value
read_literal d block pos n = do
  index ← read_integer block pos n
  name ← read_name d block index
  read_value block name

unfoldable pub decode_indexed : Decoder → Bytes → ℕ → Result DecodeError Field
decode_indexed d block pos = do
  (idx, p) ← read_integer block pos 7
  e ← lookup_index d idx
  ok (record { next = p; header = some e; decoder = d })

unfoldable pub decode_incremental : Decoder → Bytes → ℕ → Result DecodeError Field
decode_incremental d block pos = do
  (e, p) ← read_literal d block pos 6
  ok (record { next = p; header = some e; decoder = add_to_dynamic_table d e })

unfoldable pub size_update : Decoder → ℕ × ℕ → Result DecodeError Field
size_update d (new_size, p) =
    if ltb d.max_table_size new_size
    then err (table_size_too_large new_size d.max_table_size)
    else ok (record { next = p; header = none; decoder = resize_table d new_size })

unfoldable pub decode_size_update : Decoder → Bytes → ℕ → Result DecodeError Field
unfolding size_update
decode_size_update d block pos = read_integer block pos 5 >>= size_update d

unfoldable pub decode_plain : Decoder → Bytes → ℕ → Result DecodeError Field
decode_plain d block pos = do
  (e, p) ← read_literal d block pos 4
  ok (record { next = p; header = some e; decoder = d })

-- The body of the loop, by the bits of the byte `b` at `pos`.
unfoldable pub decode_field : Decoder → Bytes → ℕ → ℕ → Result DecodeError Field
unfolding decode_indexed decode_incremental decode_size_update decode_plain
decode_field d block b pos =
    if not (bit_and b 0x80 == 0)
    then decode_indexed d block pos
    else if bit_and b 0xc0 == 0x40
    then decode_incremental d block pos
    else if bit_and b 0xe0 == 0x20
    then decode_size_update d block pos
    else decode_plain d block pos

-- The answer with the decoder that is left; `stuck` is no answer: the fuel has run out.
pub data Outcome : Type 0 where
  done : Result DecodeError (List DecodedHeader) → Decoder → Outcome
  stuck : Outcome

abbrev pub push_header : List DecodedHeader → Option DecodedHeader → List DecodedHeader
push_header out none = out
push_header out (some e) = out ++ e ∷ []

-- `while pos < block.len()`: the loop goes on while there is a byte at `pos`.
unfoldable pub decode_loop : ℕ → Decoder → Bytes → ℕ → List DecodedHeader → Outcome
decode_loop zero d block pos out = elim (get_elem? block pos) [
  | none ↦ done (ok out) d
  | some b ↦ stuck
]
decode_loop (suc fuel) d block pos out = elim (get_elem? block pos) [
  | none ↦ done (ok out) d
  | some b ↦ elim (decode_field d block b pos) [
    | err e ↦ done (err e) d
    | ok f ↦ decode_loop fuel f.decoder block f.next (push_header out f.header)
  ]
]

-- Every field takes a byte at least, so a round for each byte is enough.
unfoldable pub decode_headers : Decoder → Bytes → Outcome
unfolding decode_loop decode_field
decode_headers d block = decode_loop (length block) d block 0 []
