-- ===== src/H2/Hpack/Octets/RoundTrip.antt =====
-- `read_string` on what `write_string` wrote.
use blasthttp.Common.{
  ℕ, zero, suc, ◌+◌, ◌-◌, ◌%◌, ◌^◌, ◌≤◌, ◌<◌, bit_and, ◌≡◌, refl, sym, ap, ◌∙◌, not, if◌then◌else◌,
  ltb, ltb→lt, ◌==◌, Bool-cases, inl, inr, [], ◌∷◌, ◌++◌, length, take, drop, get_elem?,
  append_assoc, arith, Bool, true, false, length-append, All, Option, some, take-length-append,
  drop-advance, length-drop,
}
use blasthttp.Common.Bits.{top_bit}
use blasthttp.Common.Bytes.{Bytes, IsByte}
use blasthttp.Common.Result.{ok, ◌>>=◌}
use blasthttp.H2.Huffman.{encode}
use blasthttp.H2.Huffman.Decode.{decode-encode}
use blasthttp.H2.Hpack.Integer.{write_integer}
use blasthttp.H2.Hpack.Integer.RoundTrip.{
  groups, integer_bytes, IsPrefix, write_integer-integer_bytes, read_integer-integer_bytes,
}
use blasthttp.H2.Hpack.Octets.{
  use_huffman, decode_raw, read_octets, read_raw, read_string_from, read_string, write_string,
  from_huffman,
}

-- The bytes that stand for a string on the wire, before their length.
unfoldable pub encoded_string : Option Bool → Bytes → Bytes
encoded_string huff data' = if use_huffman huff data' then encode data' else data'

h_flag : Bool → ℕ
h_flag coded = if coded then 0x80 else 0x00

h_flag-IsPrefix : (coded : Bool) → IsPrefix 7 (h_flag coded)
unfolding h_flag
h_flag-IsPrefix true = record { short = omega arith; high = 1; above = refl }
h_flag-IsPrefix false = record { short = omega arith; high = 0; above = refl }

-- What `write_string` appends when the length is not bloated.
pub string_bytes : Option Bool → Bytes → Bytes
string_bytes huff data' =
    integer_bytes (length (encoded_string huff data')) 7 (h_flag (use_huffman huff data'))
    ++ encoded_string huff data'

pub write_string-string_bytes :
    (out data' : Bytes) (huff : Option Bool)
    → length (encoded_string huff data') < 2 ^ 32
    → write_string out data' huff 0 ≡ out ++ string_bytes huff data'
unfolding write_string string_bytes encoded_string h_flag
write_string-string_bytes out data' huff h =
    let encoded = encoded_string huff data' in
    let flag = h_flag (use_huffman huff data') in
    let wrap : length encoded % 2 ^ 32 ≡ length encoded = omega arith in
    ap (λ k. write_integer out k 7 flag 0 ++ encoded) wrap
    ∙ ap (λ l. l ++ encoded)
        (write_integer-integer_bytes out (length encoded) (h_flag-IsPrefix (use_huffman huff data'))
          h)
    ∙ append_assoc out (integer_bytes (length encoded) 7 flag) encoded

flag_read : (coded : Bool) (v : ℕ) → v < 128 → not (bit_and (h_flag coded + v) 0x80 == 0) ≡ coded
unfolding h_flag
flag_read true v h = ground (arith, top_bit (128 + v))
flag_read false v h = ground (arith, top_bit (0 + v))

first_byte :
    (v : ℕ) (coded : Bool) (rest : Bytes)
    → (b : ℕ) × (more : Bytes) × (integer_bytes v 7 (h_flag coded) ++ rest ≡ b ∷ more)
      × (not (bit_and b 0x80 == 0) ≡ coded)
unfolding integer_bytes
first_byte v coded rest = elim (Bool-cases (ltb v 127)) [
  | inl small ↦
      (h_flag coded + v, rest, rw small, flag_read coded v (omega (arith, ltb→lt v 127 small)))
  | inr large ↦
      (h_flag coded + 127, groups 4 (v - 127) ++ rest, rw large, flag_read coded 127 (omega arith))
]

pub get_elem?-drop :
    (buf : Bytes) (pos b : ℕ) (more : Bytes) → drop pos buf ≡ b ∷ more → get_elem? buf pos ≡ some b
get_elem?-drop [] zero b more h = cc
get_elem?-drop [] (suc pos) b more h = cc
get_elem?-drop (x ∷ buf) zero b more h = cc
get_elem?-drop (x ∷ buf) (suc pos) b more h = get_elem?-drop buf pos b more h

decode_raw-encoded_string :
    (huff : Option Bool) (data' : Bytes)
    → All IsByte data'
    → decode_raw (use_huffman huff data') (encoded_string huff data') ≡ ok data'
unfolding encoded_string
decode_raw-encoded_string huff data' bytes = elim (Bool-cases (use_huffman huff data')) [
  | inl coded ↦ rw coded (ap from_huffman (decode-encode data' bytes))
  | inr plain ↦ rw plain
]

read_raw_lem :
    (buf encoded rest : Bytes) (coded : Bool) (pos : ℕ)
    → drop pos buf ≡ encoded ++ rest
    → pos + length encoded ≤ length buf
    → read_raw buf coded (length encoded, pos)
      ≡ (decode_raw coded encoded >>= λ bytes. ok (bytes, pos + length encoded))
unfolding read_raw
read_raw_lem buf encoded rest coded pos stands inside =
    let fits : ltb (length buf) (pos + length encoded) ≡ false = ground arith in
    let raw : take (length encoded) (drop pos buf) ≡ encoded =
      ap (take (length encoded)) stands ∙ take-length-append encoded rest in
    rw fits (ap (λ l. decode_raw coded l >>= λ bytes. ok (bytes, pos + length encoded)) raw)

-- A decoder that stands before a string reads it and stands behind it.
pub read_string-string_bytes :
    (buf rest : Bytes) (pos : ℕ) (huff : Option Bool) (data' : Bytes)
    → All IsByte data'
    → length (encoded_string huff data') < 2 ^ 32
    → drop pos buf ≡ string_bytes huff data' ++ rest
    → read_string buf pos ≡ ok (data', pos + length (string_bytes huff data'))
unfolding read_string string_bytes
read_string-string_bytes buf rest pos huff data' bytes short stands =
    let encoded = encoded_string huff data' in
    let coded = use_huffman huff data' in
    let prefix = integer_bytes (length encoded) 7 (h_flag coded) in
    let before : drop pos buf ≡ prefix ++ (encoded ++ rest) =
      stands ∙ append_assoc prefix encoded rest in
    let (b, more, starts, flag) = first_byte (length encoded) coded (encoded ++ rest) in
    let there = get_elem?-drop buf pos b more (before ∙ starts) in
    let len =
      read_integer-integer_bytes buf (encoded ++ rest) pos (length encoded) (h_flag-IsPrefix coded)
        short before in
    let behind = drop-advance buf pos prefix (encoded ++ rest) before in
    let measure : length buf - pos ≡ length prefix + (length encoded + length rest) =
      sym (length-drop pos buf)
      ∙ ap length before
      ∙ length-append prefix (encoded ++ rest)
      ∙ ap (λ k. length prefix + k) (length-append encoded rest) in
    let nonempty : 0 < length prefix + (length encoded + length rest) =
      omega (arith, sym measure ∙ sym (length-drop pos buf) ∙ ap length (before ∙ starts)) in
    ap (read_string_from buf pos) there
    ∙ ap (read_octets buf pos) flag
    ∙ ap (λ r. r >>= read_raw buf coded) len
    ∙ read_raw_lem buf encoded rest coded (pos + length prefix) behind (omega (arith, measure))
    ∙ ap (λ r. r >>= λ bytes. ok (bytes, pos + length prefix + length encoded))
        (decode_raw-encoded_string huff data' bytes)
    ∙ ap (λ k. ok (data', k)) (omega (arith, length-append prefix encoded))
