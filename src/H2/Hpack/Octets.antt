-- ===== src/H2/Hpack/Octets.antt =====
-- The string literals of HPACK (RFC 7541 §5.2): `write_string` and `read_string` of src/h2/hpack.rs.
pub mod RoundTrip
use blasthttp.Common.{
  ℕ, ◌+◌, ◌%◌, ◌^◌, bit_and, Bool, not, if◌then◌else◌, ltb, ◌==◌, Option, none, some, List, [], ◌∷◌,
  ◌++◌, length, take, drop, get_elem?,
}
use blasthttp.Common.Bytes.{Bytes}
use blasthttp.Common.Result.{Result, ok, err, ◌>>=◌}
use blasthttp.H2.Huffman.{HuffmanError, encode, decode, encoded_len}
use blasthttp.H2.Hpack.Integer.{DecodeError, unexpected_eof, huffman, write_integer, read_integer}

abbrev pub use_huffman : Option Bool → Bytes → Bool
use_huffman (some h) data' = h
use_huffman none data' = ltb (encoded_len data') (length data')

-- `encoded.len() as u32`
unfoldable pub write_string : Bytes → Bytes → Option Bool → ℕ → Bytes
write_string out data' huff length_bloat =
    let coded = use_huffman huff data' in
    let encoded = if coded then encode data' else data' in
    let h_flag : ℕ = if coded then 0x80 else 0x00 in
    write_integer out (length encoded % 2 ^ 32) 7 h_flag length_bloat ++ encoded

-- `?` on a Huffman error, by `#[from]`
abbrev pub from_huffman : Result HuffmanError Bytes → Result DecodeError Bytes
from_huffman (ok bytes) = ok bytes
from_huffman (err e) = err (huffman e)

abbrev pub decode_raw : Bool → Bytes → Result DecodeError Bytes
decode_raw coded raw = if coded then from_huffman (decode raw) else ok raw

-- `buf[new_pos..end]`, decoded
unfoldable pub read_raw : Bytes → Bool → ℕ × ℕ → Result DecodeError (Bytes × ℕ)
read_raw buf coded (len, new_pos) =
    let end = new_pos + len in
    if ltb (length buf) end
    then err (unexpected_eof end)
    else decode_raw coded (take len (drop new_pos buf)) >>= λ bytes. ok (bytes, end)

unfoldable pub read_octets : Bytes → ℕ → Bool → Result DecodeError (Bytes × ℕ)
unfolding read_raw
read_octets buf pos coded = read_integer buf pos 7 >>= read_raw buf coded

abbrev pub read_string_from : Bytes → ℕ → Option ℕ → Result DecodeError (Bytes × ℕ)
read_string_from buf pos none = err (unexpected_eof pos)
read_string_from buf pos (some first) = read_octets buf pos (not (bit_and first 0x80 == 0))

-- The bytes, and the position behind them.
unfoldable pub read_string : Bytes → ℕ → Result DecodeError (Bytes × ℕ)
unfolding read_octets
read_string buf pos = read_string_from buf pos (get_elem? buf pos)
