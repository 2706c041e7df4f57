-- ===== src/H2/Tests/HpackRuns.antt =====
-- Header blocks and the dynamic table at concrete inputs.
use blasthttp.Common.{All, ◌≡◌, refl, true, false, [], ◌∷◌, arith, some, map}
use blasthttp.Common.Bytes.{Bytes, codes}
use blasthttp.Common.Result.{ok, err}
use blasthttp.H2.Header
use blasthttp.H2.Header.{Header, without_indexing}
use blasthttp.H2.Huffman.{encode}
use blasthttp.H2.Hpack.Integer.{write_integer, write_groups}
use blasthttp.H2.Hpack.Octets.{write_string}
use blasthttp.H2.Tests.CodecRuns.{domain, domain_bytes, domain_short, are_bytes_sound}
use blasthttp.H2.Hpack.Octets.RoundTrip.{encoded_string}
use blasthttp.H2.Hpack.Table.{Decoder, DecodedHeader, add_to_dynamic_table, with_max_table_size}
use blasthttp.H2.Hpack.Table.Bounds.{total, IsWellFormed, Holds, add_to_dynamic_table-Holds}
use blasthttp.H2.Hpack.Encoder.Acceptance.{IsAccepted, encode_headers-IsAccepted}
use blasthttp.H2.Hpack.Encoder.{
  invalid_value, encode_headers, is_name_valid, is_value_valid, is_lowercase_token_char,
  all_token_chars,
}
use blasthttp.H2.Hpack.Decoder.{decode_headers, done}
use blasthttp.H2.Hpack.Wire.{IsPlain, decoded, remember_all}
use blasthttp.H2.Hpack.Wire.Decoded.{decode_headers-encode_headers}

abbrev old_entry : DecodedHeader
old_entry = (codes "a", codes "1")

abbrev new_entry : DecodedHeader
new_entry = (codes "b", codes "22")

abbrev pub small_table : Decoder
small_table = record {
  dynamic_table = old_entry ∷ [];
  dynamic_table_size = 34;
  max_table_size = 64;
}

pub small_table-IsWellFormed : IsWellFormed small_table
unfolding total
small_table-IsWellFormed = record { counted = refl; within = omega arith; limited = omega arith }

-- The old entry has to go.
add_to_dynamic_table-Holds_example :
    Holds 64 (new_entry ∷ old_entry ∷ []) (add_to_dynamic_table small_table new_entry)
add_to_dynamic_table-Holds_example =
    add_to_dynamic_table-Holds small_table new_entry small_table-IsWellFormed (omega arith)

-- A pseudo-header by its static index, coded, and a literal that is not indexed.
abbrev pub authority : Header
authority = record (Header.new (codes ":authority") domain) {
  huffman_name = some false;
  huffman_value = some true;
  force_static_index = some 1;
}

abbrev pub probe_id : Header
probe_id = record (Header.new (codes "x-id") (codes "7")) {
  huffman_name = some false;
  huffman_value = some false;
  indexing = without_indexing;
}

abbrev pub headers_block : Bytes
headers_block =
    0x41 ∷ 0x8c ∷ 0xf1 ∷ 0xe3 ∷ 0xc2 ∷ 0xe5 ∷ 0xf2 ∷ 0x3a ∷ 0x6b ∷ 0xa0 ∷ 0xab ∷ 0x90 ∷ 0xf4 ∷ 0xff
    ∷ 0 ∷ 4 ∷ b'x' ∷ b'-' ∷ b'i' ∷ b'd' ∷ 1 ∷ b'7' ∷ []

pub headers_encoded : encode_headers (authority ∷ probe_id ∷ []) ≡ ok headers_block
unfolding encode_headers write_string write_integer write_groups encode is_name_valid is_value_valid
    is_lowercase_token_char all_token_chars
headers_encoded = refl

pub authority-IsPlain : IsPlain authority
unfolding encoded_string
authority-IsPlain = record {
  name_bytes = are_bytes_sound authority.name refl;
  value_bytes = domain_bytes;
  name_bloat = refl;
  value_bloat = refl;
  name_short = omega arith;
  value_short = domain_short;
}

pub probe_id-IsPlain : IsPlain probe_id
unfolding encoded_string
probe_id-IsPlain = record {
  name_bytes = are_bytes_sound probe_id.name refl;
  value_bytes = are_bytes_sound probe_id.value refl;
  name_bloat = refl;
  value_bloat = refl;
  name_short = omega arith;
  value_short = omega arith;
}

decode_headers-encode_headers_example :
    decode_headers (with_max_table_size 100) headers_block
    ≡ done
        (ok (map decoded (authority ∷ probe_id ∷ [])))
        (remember_all (with_max_table_size 100) (authority ∷ probe_id ∷ []))
decode_headers-encode_headers_example =
    decode_headers-encode_headers (authority ∷ probe_id ∷ []) (with_max_table_size 100)
      (authority-IsPlain, (probe_id-IsPlain, tt)) headers_encoded

encode_headers-IsAccepted_example : All IsAccepted (authority ∷ probe_id ∷ [])
encode_headers-IsAccepted_example =
    encode_headers-IsAccepted (authority ∷ probe_id ∷ []) headers_encoded

-- A line feed in a value is refused.
injection_refused :
    encode_headers (Header.new (codes "x-id") (b'7' ∷ 10 ∷ b'x' ∷ []) ∷ []) ≡ err invalid_value
unfolding encode_headers is_name_valid is_value_valid is_lowercase_token_char all_token_chars
injection_refused = refl
