-- ===== src/H2/Hpack/Integer.antt =====
-- The integers of HPACK (RFC 7541 §5.1): `write_integer` and `read_integer` of src/h2/hpack.rs.
pub mod RoundTrip
pub mod Bloat
use blasthttp.Common.{
  ℕ, zero, suc, ◌+◌, ◌-◌, ◌*◌, ◌/◌, ◌%◌, ◌^◌, bit_and, bit_or, if◌then◌else◌, ltb, leb, ◌==◌, List,
  [], ◌∷◌, ◌++◌, drop,
}
use blasthttp.Common.Bytes.{Bytes}
use blasthttp.Common.Result.{Result, ok, err}
use blasthttp.H2.Huffman.{HuffmanError}

pub data DecodeError : Type 0 where
  unexpected_eof : ℕ → DecodeError
  integer_overflow : DecodeError
  invalid_index : ℕ → DecodeError
  table_size_too_large : ℕ → ℕ → DecodeError
  huffman : HuffmanError → DecodeError

-- `while remaining >= 128 { … }` and the last push. A `u32` has five groups of seven bits, so four
-- rounds are enough.
unfoldable pub write_groups : ℕ → ℕ → Bytes → Bytes
write_groups zero remaining out = out ++ remaining % 256 ∷ []
write_groups (suc fuel) remaining out =
    let more =
      write_groups fuel (remaining / 2 ^ 7)
        (out ++ bit_or (bit_and remaining 0x7f % 256) 0x80 ∷ []) in
    if leb 128 remaining then more else out ++ remaining % 256 ∷ []

-- `let last = out.pop().unwrap(); out.push(0x80); out.push(last);`. The output is never empty here.
unfoldable pub insert_before_last : Bytes → Bytes
insert_before_last [] = []
insert_before_last (x ∷ []) = 0x80 ∷ x ∷ []
insert_before_last (x ∷ y ∷ rest) = x ∷ insert_before_last (y ∷ rest)

unfoldable pub add_bloat : ℕ → Bytes → Bytes
add_bloat zero out = out
add_bloat (suc bloat) out = add_bloat bloat (insert_before_last out)

unfoldable pub write_integer : Bytes → ℕ → ℕ → ℕ → ℕ → Bytes
write_integer out value n prefix_pattern bloat =
    let max_prefix = 2 ^ n - 1 in
    if ltb value max_prefix
    then out ++ bit_or prefix_pattern (value % 256) ∷ []
    else add_bloat bloat
        (write_groups 4 (value - max_prefix) (out ++ bit_or prefix_pattern (max_prefix % 256) ∷ []))

-- The loop over the continuation bytes: the list is what `buf[p..]` holds. `checked_shl` gives up at
-- a shift of 32, and drops the bits above the word below that; `checked_add` gives up at 2 ^ 32.
unfoldable pub read_groups : Bytes → ℕ → ℕ → ℕ → Result DecodeError (ℕ × ℕ)
read_groups [] p value shift = err (unexpected_eof p)
read_groups (b ∷ rest) p value shift =
    let value' = value + bit_and b 0x7f * 2 ^ shift % 2 ^ 32 in
    let more = read_groups rest (p + 1) value' (shift + 7) in
    if leb 32 shift
    then err integer_overflow
    else if leb (2 ^ 32) value'
    then err integer_overflow
    else if bit_and b 0x80 == 0
    then ok (value', p + 1)
    else more

unfoldable pub read_integer_from : Bytes → ℕ → ℕ → Result DecodeError (ℕ × ℕ)
read_integer_from [] pos n = err (unexpected_eof pos)
read_integer_from (b ∷ rest) pos n =
    let max_prefix = 2 ^ n - 1 in
    let first = bit_and b max_prefix in
    if ltb first max_prefix then ok (first, pos + 1) else read_groups rest (pos + 1) max_prefix 0

-- The value, and the position behind it.
unfoldable pub read_integer : Bytes → ℕ → ℕ → Result DecodeError (ℕ × ℕ)
unfolding read_integer_from read_groups
read_integer buf pos n = read_integer_from (drop pos buf) pos n
