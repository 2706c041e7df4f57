-- ===== src/H2/Tests/DecoderRuns.antt =====
-- The decoder on blocks that no encoder here writes.
use blasthttp.Common.{◌≡◌, ◌≤◌, refl, [], ◌∷◌, arith, none, some}
use blasthttp.Common.Bytes.{Bytes, codes}
use blasthttp.Common.Result.{ok, err}
use blasthttp.H2.Hpack.Integer.{table_size_too_large, read_integer}
use blasthttp.H2.Hpack.Table.{resize_table, lookup_index, static_table, with_max_table_size}
use blasthttp.H2.Hpack.Decoder.{Field, decode_headers, size_update, decode_field, decode_indexed}
use blasthttp.H2.Hpack.Decoder.Safety.{Ends, decode_headers-Ends}
use blasthttp.H2.Hpack.Decoder.Updates.{Later, size_update_refused}
use blasthttp.H2.Tests.HpackRuns.{small_table, small_table-IsWellFormed}

-- An entry of the dynamic table, an update to 34 bytes, and a literal that is cut short.
abbrev cut_block : Bytes
cut_block = 0xbe ∷ 0x3f ∷ 3 ∷ 0x40 ∷ 5 ∷ b'x' ∷ []

decode_headers-Ends_example : Ends small_table (decode_headers small_table cut_block)
decode_headers-Ends_example =
    decode_headers-Ends small_table cut_block small_table-IsWellFormed (omega arith)

abbrev after_update : Field
after_update = record { next = 2; header = none; decoder = with_max_table_size 0 }

updated : size_update (with_max_table_size 4096) (0, 2) ≡ ok after_update
unfolding size_update resize_table
updated = refl

-- `:method: GET` in between.
abbrev static_block : Bytes
static_block = 0x82 ∷ []

abbrev static_field : Field
static_field = record {
  next = 1;
  header = some (codes ":method", codes "GET");
  decoder = with_max_table_size 0;
}

static_read : decode_field (with_max_table_size 0) static_block 0x82 0 ≡ ok static_field
unfolding decode_field decode_indexed read_integer lookup_index static_table
static_read = refl

-- The table was announced with 4096 bytes, and an update back to 4096 is refused.
size_update_refused_example :
    ((with_max_table_size 0).max_table_size ≤ 0)
    × (size_update (with_max_table_size 0) (4096, 5) ≡ err (table_size_too_large 4096 0))
size_update_refused_example =
    size_update_refused (with_max_table_size 4096) 0 4096 2 5 (with_max_table_size 0) updated
      (Later.field (with_max_table_size 0) (with_max_table_size 0) static_block 0x82 0 static_field
        static_read (Later.now (with_max_table_size 0)))
      (omega arith)
