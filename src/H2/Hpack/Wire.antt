-- ===== src/H2/Hpack/Wire.antt =====
-- What the encoder writes for a header that is not bloated, and how the decoder reads it.
pub mod Encoded
pub mod Field
pub mod Decoded
use blasthttp.Common.{
  ℕ, ◌<◌, ◌^◌, ◌-◌, ◌≡◌, Option, none, some, List, [], ◌∷◌, ◌++◌, length, get_or, All, map,
}
use mathlib.Core.List.{foldl}
use blasthttp.Common.Bytes.{Bytes, IsByte}
use blasthttp.H2.Header.{Header, Indexing, with_indexing, without_indexing, never_indexed}
use blasthttp.H2.Hpack.Integer.RoundTrip.{integer_bytes}
use blasthttp.H2.Hpack.Octets.RoundTrip.{encoded_string, string_bytes}
use blasthttp.H2.Hpack.Table.{DecodedHeader, Decoder, static_table, add_to_dynamic_table}
use blasthttp.H2.Hpack.Encoder.{representation}

-- A header of bytes, with neither length bloated and neither string as long as 4 GB on the wire.
pub record IsPlain (h : Header) : Type 0 where
  pub name_bytes : All IsByte h.name
  pub value_bytes : All IsByte h.value
  pub name_bloat : h.length_bloat_name ≡ 0
  pub value_bloat : h.length_bloat_value ≡ 0
  pub name_short : length (encoded_string h.huffman_name h.name) < 2 ^ 32
  pub value_short : length (encoded_string h.huffman_value h.value) < 2 ^ 32

-- The index that stands for a name: 0 is a literal name.
abbrev pub index_of : Option ℕ → ℕ
index_of none = 0
index_of (some idx) = idx

abbrev pub name_part : Option ℕ → Header → Bytes
name_part none h = string_bytes h.huffman_name h.name
name_part (some idx) h = []

pub header_bytes : Header → Bytes
header_bytes h =
    let (pattern, n) = representation h.indexing in
    integer_bytes (index_of h.force_static_index) n pattern
    ++ (name_part h.force_static_index h ++ string_bytes h.huffman_value h.value)

pub wire : List Header → Bytes
wire [] = []
wire (h ∷ rest) = header_bytes h ++ wire rest

-- The name that a receiver is meant to see: the static table's where an index is forced.
unfoldable pub wire_name : Option ℕ → Bytes → Bytes
wire_name none name = name
wire_name (some idx) name = (get_or static_table (idx - 1) ([], [])).0

unfoldable pub decoded : Header → DecodedHeader
unfolding wire_name
decoded h = (wire_name h.force_static_index h.name, h.value)

-- What the receiver's dynamic table does with a header.
abbrev remember_as : Indexing → Decoder → DecodedHeader → Decoder
remember_as with_indexing d e = add_to_dynamic_table d e
remember_as without_indexing d e = d
remember_as never_indexed d e = d

unfoldable pub remember : Decoder → Header → Decoder
remember d h = remember_as h.indexing d (decoded h)

unfoldable pub remember_all : Decoder → List Header → Decoder
remember_all = foldl remember
