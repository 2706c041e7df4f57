-- ===== src/H2/Tests/CodecRuns.antt =====
-- The Huffman code and the integers of HPACK at concrete inputs.
use blasthttp.Common.{
  ◌^◌, ◌<◌, ◌≡◌, ◌≢◌, refl, Bool, true, [], ◌∷◌, ◌++◌, length, ltb, ltb→lt, All, arith, some, ◌&&◌,
}
use blasthttp.Common.Bytes.{Bytes, IsByte, codes}
use blasthttp.Common.Result.{ok}
use blasthttp.H2.Huffman.{encode, encoded_len, decode}
use blasthttp.H2.Huffman.Encode.{encoded_len-eq-length}
use blasthttp.H2.Huffman.Decode.{decode-encode}
use blasthttp.H2.Hpack.Integer.{
  read_integer, write_integer, write_groups, add_bloat, insert_before_last,
}
use blasthttp.H2.Hpack.Integer.RoundTrip.{IsPrefix}
use blasthttp.H2.Hpack.Integer.Bloat.{bloat_changes_value}
use blasthttp.H2.Hpack.Octets.RoundTrip.{encoded_string}

abbrev pub domain : Bytes
domain = codes "www.example.com"

abbrev are_bytes : Bytes → Bool
are_bytes [] = true
are_bytes (b ∷ rest) = ltb b 256 && are_bytes rest

pub are_bytes_sound : (xs : Bytes) → are_bytes xs ≡ true → All IsByte xs
are_bytes_sound [] h = tt
are_bytes_sound (b ∷ rest) h = (ground arith, are_bytes_sound rest (ground arith))

pub domain_bytes : All IsByte domain
domain_bytes = are_bytes_sound domain refl

encoded_len-eq-length_example : encoded_len domain ≡ length (encode domain)
encoded_len-eq-length_example = encoded_len-eq-length domain domain_bytes

decode-encode_example : decode (encode domain) ≡ ok domain
decode-encode_example = decode-encode domain domain_bytes

-- The example of RFC 7541 §C.4.1.
encode_run :
    encode domain
    ≡ 0xf1 ∷ 0xe3 ∷ 0xc2 ∷ 0xe5 ∷ 0xf2 ∷ 0x3a ∷ 0x6b ∷ 0xa0 ∷ 0xab ∷ 0x90 ∷ 0xf4 ∷ 0xff ∷ []
unfolding encode
encode_run = refl

seven_bits : IsPrefix 7 0x80
seven_bits = record { short = omega arith; high = 1; above = refl }

-- A string of 200 bytes with its length bloated once.
bloat_changes_value_example :
    read_integer (write_integer [] 200 7 0x80 1 ++ (5 ∷ [])) 0 7 ≢ ok (200, 3)
bloat_changes_value_example =
    bloat_changes_value (5 ∷ []) 200 1 3 seven_bits (omega arith) (omega arith) (omega arith)

-- It is read as 127 + 73 · 128.
bloat_run : read_integer (write_integer [] 200 7 0x80 1) 0 7 ≡ ok (9471, 3)
unfolding read_integer write_integer write_groups add_bloat insert_before_last
bloat_run = refl

pub domain_short : length (encoded_string (some true) domain) < 2 ^ 32
unfolding encoded_string encode
domain_short = ltb→lt 12 (2 ^ 32) refl
