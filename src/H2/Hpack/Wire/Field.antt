-- ===== src/H2/Hpack/Wire/Field.antt =====
-- `decode_field` reads the bytes of one header of `wire`.
use blasthttp.Common.{
  ℕ, zero, suc, ◌<◌, ◌≤◌, ◌^◌, ◌+◌, ◌-◌, ◌≡◌, refl, ap, ◌∙◌, true, false, bit_and, inl, inr,
  Bool-cases, ltb, ltb→lt, leb, ◌==◌, Option, none, some, List, [], ◌∷◌, ◌++◌, length,
  length-append, get_elem?, get_or, drop, drop-advance, append_assoc, arith,
}
use blasthttp.Common.Bits.{top_bit, top_two_bits, top_three_bits}
use blasthttp.Common.Bytes.{Bytes}
use blasthttp.Common.Result.{ok, ◌>>=◌}
use blasthttp.H2.Header.{Header, Indexing, with_indexing, without_indexing, never_indexed}
use blasthttp.H2.Hpack.Integer.RoundTrip.{groups, integer_bytes, read_integer-integer_bytes}
use blasthttp.H2.Hpack.Octets.RoundTrip.{string_bytes, read_string-string_bytes}
use blasthttp.H2.Hpack.Table.{DecodedHeader, Decoder, static_table, lookup_index, found}
use blasthttp.H2.Hpack.Encoder.{representation}
use blasthttp.H2.Hpack.Decoder.{
  Field, read_name, read_value, read_literal, decode_incremental, decode_plain, decode_field,
}
use blasthttp.H2.Hpack.Wire.{
  IsPlain, index_of, name_part, header_bytes, wire_name, decoded, remember_as, remember,
}
use blasthttp.H2.Hpack.Wire.Encoded.{IsStaticIndex, representation-IsPrefix}

-- The static table answers for the indices 1 to 61.
get_elem?-get_or {ℓ} :
    {A : Type ℓ} (xs : List A) (i : ℕ) (d : A)
    → i < length xs
    → get_elem? xs i ≡ some (get_or xs i d)
get_elem?-get_or [] i d h = absurd (omega arith)
get_elem?-get_or (x ∷ xs) zero d h = refl
get_elem?-get_or (x ∷ xs) (suc i) d h = get_elem?-get_or xs i d (omega arith)

static_length : length static_table ≡ 61
unfolding static_table
static_length = refl

lookup_static :
    (d : Decoder) (idx : ℕ)
    → 1 ≤ idx
    → idx ≤ 61
    → lookup_index d idx ≡ ok (get_or static_table (idx - 1) ([], []))
unfolding lookup_index
lookup_static d idx lo hi =
    let nonzero : (idx == 0) ≡ false = ground arith in
    let static : leb idx 61 ≡ true = ground arith in
    rw (nonzero, static)
      (ap (found idx)
        (get_elem?-get_or static_table (idx - 1) ([], []) (omega (arith, static_length))))

-- The name, literal or by its index, from behind the index.
read_name_lem :
    (d : Decoder) (block rest : Bytes) (pos : ℕ) (h : Header) (force : Option ℕ)
    → IsPlain h
    → IsStaticIndex force
    → drop pos block ≡ name_part force h ++ rest
    → read_name d block (index_of force, pos)
      ≡ ok (wire_name force h.name, pos + length (name_part force h))
unfolding read_name wire_name
read_name_lem d block rest pos h none p s stands =
    read_string-string_bytes block rest pos h.huffman_name h.name p.name_bytes p.name_short stands
read_name_lem d block rest pos h (some idx) p (lo, hi) stands =
    let indexed : (idx == 0) ≡ false = ground arith in
    let stays : pos ≡ pos + 0 = omega arith in
    rw (indexed, lookup_static d idx lo hi) (ap (λ k. ok (wire_name (some idx) h.name, k)) stays)

-- A whole literal, from before its index.
read_literal_lem :
    (d : Decoder) (block rest : Bytes) (pos : ℕ) (h : Header)
    → IsPlain h
    → IsStaticIndex h.force_static_index
    → drop pos block ≡ header_bytes h ++ rest
    → read_literal d block pos (representation h.indexing).1
      ≡ ok (decoded h, pos + length (header_bytes h))
unfolding read_literal read_value header_bytes decoded
read_literal_lem d block rest pos h p s stands =
    let index =
      integer_bytes (index_of h.force_static_index) (representation h.indexing).1
        (representation h.indexing).0 in
    let name = name_part h.force_static_index h in
    let value = string_bytes h.huffman_value h.value in
    let before : drop pos block ≡ index ++ (name ++ (value ++ rest)) = stands ∙ simp append_assoc in
    let second = drop-advance block pos index _ before in
    let third = drop-advance block (pos + length index) name _ second in
    let place : pos + length index + length name + length value
        ≡ pos + length (index ++ (name ++ value)) =
      omega (arith, length-append index (name ++ value), length-append name value) in
    ap (λ r. r >>= λ i. read_name d block i >>= read_value block)
      (read_integer-integer_bytes block _ pos (index_of h.force_static_index)
        (representation-IsPrefix h.indexing) (index_small h.force_static_index s) before)
    ∙ ap (λ r. r >>= read_value block)
        (read_name_lem d block _ (pos + length index) h h.force_static_index p s second)
    ∙ ap (λ r. r >>= λ (v : Bytes × ℕ). ok ((wire_name h.force_static_index h.name, v.0), v.1))
        (read_string-string_bytes block rest _ h.huffman_value h.value p.value_bytes p.value_short
          third)
    ∙ ap (λ k. ok (decoded h, k)) place
  where
    index_small : (force : Option ℕ) → IsStaticIndex force → index_of force < 2 ^ 32
    index_small none s = omega arith
    index_small (some i) s = omega arith

-- The first byte of a header: its pattern, and what its prefix holds.
pub first_byte :
    (h : Header) (rest : Bytes)
    → (b : ℕ) × (more : Bytes) × (header_bytes h ++ rest ≡ b ∷ more)
      × ((representation h.indexing).0 ≤ b)
      × (b ≤ (representation h.indexing).0 + (2 ^ (representation h.indexing).1 - 1))
unfolding header_bytes integer_bytes
first_byte h rest = elim (Bool-cases (ltb idx top)) [
  | inl small ↦
      (pattern + idx, parts ++ rest, rw small, omega arith, omega (arith, ltb→lt idx top small))
  | inr large ↦
      (pattern + top, (groups 4 (idx - top) ++ parts) ++ rest, rw large, omega arith, omega arith)
]
  where
    idx : ℕ
    idx = index_of h.force_static_index

    pattern : ℕ
    pattern = (representation h.indexing).0

    top : ℕ
    top = 2 ^ (representation h.indexing).1 - 1

    parts : Bytes
    parts = name_part h.force_static_index h ++ string_bytes h.huffman_value h.value

unfoldable pub field_of : Decoder → Header → ℕ → Field
field_of d h pos = record {
  next = pos + length (header_bytes h);
  header = some (decoded h);
  decoder = remember d h;
}

-- The branch that the first byte selects.
decode_field_with :
    (d : Decoder) (block : Bytes) (b pos : ℕ)
    → 64 ≤ b
    → b ≤ 127
    → decode_field d block b pos ≡ decode_incremental d block pos
unfolding decode_field
decode_field_with d block b pos lo hi =
    let high : (bit_and b 0x80 == 0) ≡ true = ground (arith, top_bit b) in
    let two : (bit_and b 0xc0 == 0x40) ≡ true = ground (arith, top_two_bits b) in rw (high, two)

decode_field_plain :
    (d : Decoder) (block : Bytes) (b pos : ℕ)
    → b ≤ 31
    → decode_field d block b pos ≡ decode_plain d block pos
unfolding decode_field
decode_field_plain d block b pos hi =
    let high : (bit_and b 0x80 == 0) ≡ true = ground (arith, top_bit b) in
    let two : (bit_and b 0xc0 == 0x40) ≡ false = ground (arith, top_two_bits b) in
    let three : (bit_and b 0xe0 == 0x20) ≡ false = ground (arith, top_three_bits b) in
    rw (high, two, three)

decode_header_as :
    (i : Indexing) (d : Decoder) (block : Bytes) (b pos : ℕ) {e : DecodedHeader} {p : ℕ}
    → (representation i).0 ≤ b
    → b ≤ (representation i).0 + (2 ^ (representation i).1 - 1)
    → read_literal d block pos (representation i).1 ≡ ok (e, p)
    → decode_field d block b pos
      ≡ ok (record { next = p; header = some e; decoder = remember_as i d e })
unfolding decode_incremental decode_plain
decode_header_as with_indexing d block b pos lo hi read =
    decode_field_with d block b pos lo hi
    ∙ ap
        (λ r. r >>= λ (x : DecodedHeader × ℕ).
          ok (record { next = x.1; header = some x.0; decoder = remember_as with_indexing d x.0 }))
        read
decode_header_as without_indexing d block b pos lo hi read =
    decode_field_plain d block b pos (omega arith)
    ∙ ap
        (λ r. r >>= λ (x : DecodedHeader × ℕ).
          ok (record { next = x.1; header = some x.0; decoder = d }))
        read
decode_header_as never_indexed d block b pos lo hi read =
    decode_field_plain d block b pos (omega arith)
    ∙ ap
        (λ r. r >>= λ (x : DecodedHeader × ℕ).
          ok (record { next = x.1; header = some x.0; decoder = d }))
        read

pub decode_field_lem :
    (d : Decoder) (block rest : Bytes) (b pos : ℕ) (h : Header)
    → IsPlain h
    → IsStaticIndex h.force_static_index
    → drop pos block ≡ header_bytes h ++ rest
    → (representation h.indexing).0 ≤ b
    → b ≤ (representation h.indexing).0 + (2 ^ (representation h.indexing).1 - 1)
    → decode_field d block b pos ≡ ok (field_of d h pos)
unfolding remember field_of
decode_field_lem d block rest b pos h p s stands lo hi =
    decode_header_as h.indexing d block b pos lo hi (read_literal_lem d block rest pos h p s stands)
