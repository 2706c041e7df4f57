-- ===== src/H2/Hpack/Encoder.antt =====
-- `encode_headers` of src/h2/hpack.rs, with the validity of names and values.
pub mod Acceptance
use blasthttp.Common.{
  ℕ, Bool, true, false, not, ◌&&◌, ◌||◌, if◌then◌else◌, ltb, leb, ◌==◌, Option, none, some, List,
  [], ◌∷◌,
}
use blasthttp.Common.Bytes.{Bytes}
use blasthttp.Common.Result.{Result, ok, err, ◌>>=◌}
use blasthttp.H2.Header.{Header, Indexing, with_indexing, without_indexing, never_indexed}
use blasthttp.H2.Hpack.Integer.{write_integer}
use blasthttp.H2.Hpack.Octets.{write_string}

pub data EncodeError : Type 0 where
  empty_name invalid_value invalid_name : EncodeError
  bloat_out_of_range : ℕ → EncodeError
  static_index_out_of_range : ℕ → EncodeError

abbrev pub is_empty : Bytes → Bool
is_empty [] = true
is_empty (x ∷ xs) = false

abbrev pub is_none {ℓ} : {A : Type ℓ} → Option A → Bool
is_none none = true
is_none (some _) = false

unfoldable pub is_lowercase_token_char : ℕ → Bool
is_lowercase_token_char b =
    (leb b'a' b && leb b b'z')
    || (leb b'0' b && leb b b'9')
    || b == b'!'
    || b == b'#'
    || b == b'$'
    || b == b'%'
    || b == b'&'
    || b == 39
    || b == b'*'
    || b == b'+'
    || b == b'-'
    || b == b'.'
    || b == b'^'
    || b == b'_'
    || b == b'`'
    || b == b'|'
    || b == b'~'

-- `for &b in &name[1..]`
unfoldable pub all_token_chars : Bytes → Bool
all_token_chars [] = true
all_token_chars (b ∷ rest) = is_lowercase_token_char b && all_token_chars rest

unfoldable pub is_name_valid : Bytes → Bool
is_name_valid [] = false
is_name_valid (first ∷ rest) =
    if first == b':'
    then (if is_empty rest then false else all_token_chars rest)
    else if not (is_lowercase_token_char first)
    then false
    else all_token_chars rest

unfoldable pub is_value_valid : Bytes → Bool
is_value_valid [] = true
is_value_valid (b ∷ rest) = not (b == 0x00 || b == 0x0a || b == 0x0d) && is_value_valid rest

-- (prefix_pattern, prefix_bits)
abbrev pub representation : Indexing → ℕ × ℕ
representation with_indexing = (0x40, 6)
representation without_indexing = (0x00, 4)
representation never_indexed = (0x10, 4)

-- The checks, in order; the last one stands behind the choice of the representation in the code.
unfoldable pub check_name_index : Option ℕ → Result EncodeError ℕ
check_name_index none = ok 0
check_name_index (some idx) =
    if leb 1 idx && leb idx 61 then ok idx else err (static_index_out_of_range idx)

unfoldable pub check_header : Header → Result EncodeError ℕ
unfolding check_name_index
check_header h =
    if is_empty h.name && is_none h.force_static_index
    then err empty_name
    else if ltb 3 h.length_bloat_name
    then err (bloat_out_of_range h.length_bloat_name)
    else if ltb 3 h.length_bloat_value
    then err (bloat_out_of_range h.length_bloat_value)
    else if not h.allow_invalid_name && is_none h.force_static_index && not (is_name_valid h.name)
    then err invalid_name
    else if not h.allow_invalid_value && not (is_value_valid h.value)
    then err invalid_value
    else check_name_index h.force_static_index

-- What is emitted once the checks have passed.
unfoldable pub emit_header : Header → ℕ → Bytes → Bytes
emit_header h name_index out =
    let (prefix_pattern, prefix_bits) = representation h.indexing in
    let out' = write_integer out name_index prefix_bits prefix_pattern 0 in
    let out'' =
      if name_index == 0
      then write_string out' h.name h.huffman_name h.length_bloat_name
      else out' in
    write_string out'' h.value h.huffman_value h.length_bloat_value

unfoldable pub encode_one : Header → Bytes → Result EncodeError Bytes
unfolding check_header emit_header
encode_one h out = do name_index ← check_header h; ok (emit_header h name_index out)

unfoldable pub encode_loop : List Header → Bytes → Result EncodeError Bytes
encode_loop [] out = ok out
encode_loop (h ∷ rest) out = do out' ← encode_one h out; encode_loop rest out'

unfoldable pub encode_headers : List Header → Result EncodeError Bytes
unfolding encode_loop encode_one
encode_headers headers = encode_loop headers []
