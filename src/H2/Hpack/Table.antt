-- ===== src/H2/Hpack/Table.antt =====
-- The tables of HPACK: STATIC_TABLE and the dynamic table of the `Decoder` of src/h2/hpack.rs.
pub mod Bounds
use blasthttp.Common.{
  ℕ, zero, suc, ◌+◌, ◌-◌, ◌*◌, ◌/◌, ◌%◌, ◌^◌, Bool, true, false, if◌then◌else◌, ltb, leb, ◌==◌,
  Option, none, some, List, [], ◌∷◌, ◌++◌, length, get_elem?, map,
}
use blasthttp.Common.Bytes.{Bytes, codes}
use blasthttp.Common.Result.{Result, ok, err}
use blasthttp.H2.Hpack.Integer.{DecodeError, invalid_index}

-- A decoded header: (name, value).
abbrev pub DecodedHeader : Type 0
DecodedHeader = Bytes × Bytes

unfoldable pub static_table : List DecodedHeader
static_table =
    (codes ":authority", codes "")
    ∷ (codes ":method", codes "GET")
    ∷ (codes ":method", codes "POST")
    ∷ (codes ":path", codes "/")
    ∷ (codes ":path", codes "/index.html")
    ∷ (codes ":scheme", codes "http")
    ∷ (codes ":scheme", codes "https")
    ∷ (codes ":status", codes "200")
    ∷ (codes ":status", codes "204")
    ∷ (codes ":status", codes "206")
    ∷ (codes ":status", codes "304")
    ∷ (codes ":status", codes "400")
    ∷ (codes ":status", codes "404")
    ∷ (codes ":status", codes "500")
    ∷ (codes "accept-charset", codes "")
    ∷ (codes "accept-encoding", codes "gzip, deflate")
    ∷ (codes "accept-language", codes "")
    ∷ (codes "accept-ranges", codes "")
    ∷ (codes "accept", codes "")
    ∷ (codes "access-control-allow-origin", codes "")
    ∷ (codes "age", codes "")
    ∷ (codes "allow", codes "")
    ∷ (codes "authorization", codes "")
    ∷ (codes "cache-control", codes "")
    ∷ (codes "content-disposition", codes "")
    ∷ (codes "content-encoding", codes "")
    ∷ (codes "content-language", codes "")
    ∷ (codes "content-length", codes "")
    ∷ (codes "content-location", codes "")
    ∷ (codes "content-range", codes "")
    ∷ (codes "content-type", codes "")
    ∷ (codes "cookie", codes "")
    ∷ (codes "date", codes "")
    ∷ (codes "etag", codes "")
    ∷ (codes "expect", codes "")
    ∷ (codes "expires", codes "")
    ∷ (codes "from", codes "")
    ∷ (codes "host", codes "")
    ∷ (codes "if-match", codes "")
    ∷ (codes "if-modified-since", codes "")
    ∷ (codes "if-none-match", codes "")
    ∷ (codes "if-range", codes "")
    ∷ (codes "if-unmodified-since", codes "")
    ∷ (codes "last-modified", codes "")
    ∷ (codes "link", codes "")
    ∷ (codes "location", codes "")
    ∷ (codes "max-forwards", codes "")
    ∷ (codes "proxy-authenticate", codes "")
    ∷ (codes "proxy-authorization", codes "")
    ∷ (codes "range", codes "")
    ∷ (codes "referer", codes "")
    ∷ (codes "refresh", codes "")
    ∷ (codes "retry-after", codes "")
    ∷ (codes "server", codes "")
    ∷ (codes "set-cookie", codes "")
    ∷ (codes "strict-transport-security", codes "")
    ∷ (codes "transfer-encoding", codes "")
    ∷ (codes "user-agent", codes "")
    ∷ (codes "vary", codes "")
    ∷ (codes "via", codes "")
    ∷ (codes "www-authenticate", codes "")
    ∷ []

pub record Decoder : Type 0 where
  pub dynamic_table : List DecodedHeader
  pub dynamic_table_size : ℕ
  pub max_table_size : ℕ

-- `Decoder::new`
abbrev pub new : Decoder
new = record { dynamic_table = []; dynamic_table_size = 0; max_table_size = 4096 }

abbrev pub with_max_table_size : ℕ → Decoder
with_max_table_size max = record new { max_table_size = max }

-- `u32` arithmetic, which wraps
abbrev pub add32 : ℕ → ℕ → ℕ
add32 a b = (a + b) % 2 ^ 32

abbrev pub sub32 : ℕ → ℕ → ℕ
sub32 a b = (a + 2 ^ 32 - b) % 2 ^ 32

-- `(name.len() + value.len() + 32) as u32`
abbrev pub entry_size : DecodedHeader → ℕ
entry_size (name, value) = (length name + length value + 32) % 2 ^ 32

-- `VecDeque::pop_back`: what stays, and the entry at the back.
unfoldable pub pop_back : List DecodedHeader → Option (List DecodedHeader × DecodedHeader)
pop_back [] = none
pop_back (e ∷ rest) = elim (pop_back rest) [
  | none ↦ some ([], e)
  | some (front, last) ↦ some (e ∷ front, last)
]

-- The decoder without the entry at the back.
abbrev pub drop_entry : Decoder → List DecodedHeader × DecodedHeader → Decoder
drop_entry d (front, last) = record d {
  dynamic_table = front;
  dynamic_table_size = sub32 d.dynamic_table_size (entry_size last);
}

-- `while size + room > limit { if let Some(entry) = pop_back() { size -= … } else { break } }`. A
-- round takes an entry or leaves the loop, so a round for each entry is enough.
unfoldable pub evict : ℕ → ℕ → ℕ → Decoder → Decoder
evict zero room limit d = d
evict (suc fuel) room limit d =
    if ltb limit (add32 d.dynamic_table_size room)
    then (elim (pop_back d.dynamic_table) [
      | none ↦ d
      | some popped ↦ evict fuel room limit (drop_entry d popped)
    ])
    else d

unfoldable pub add_to_dynamic_table : Decoder → DecodedHeader → Decoder
unfolding evict pop_back
add_to_dynamic_table d entry =
    let size = entry_size entry in
    let d' = evict (length d.dynamic_table) size d.max_table_size d in
    if ltb d.max_table_size size
    then record d { dynamic_table = []; dynamic_table_size = 0 }
    else record d' {
      dynamic_table = entry ∷ d'.dynamic_table;
      dynamic_table_size = add32 d'.dynamic_table_size size;
    }

-- The loop test has no room to add here: `size > new_size`.
unfoldable pub resize_table : Decoder → ℕ → Decoder
unfolding evict pop_back
resize_table d new_size =
    evict (length d.dynamic_table) 0 new_size (record d { max_table_size = new_size })

-- An index past the end of the dynamic table is an error.
abbrev pub found : ℕ → Option DecodedHeader → Result DecodeError DecodedHeader
found idx none = err (invalid_index idx)
found idx (some entry) = ok entry

-- Index 1 is the first entry of the static table, and 62 the front of the dynamic table.
unfoldable pub lookup_index : Decoder → ℕ → Result DecodeError DecodedHeader
unfolding static_table
lookup_index d idx =
    if idx == 0
    then err (invalid_index 0)
    else if leb idx (length static_table)
    then found idx (get_elem? static_table (idx - 1))
    else found idx (get_elem? d.dynamic_table (idx - 1 - length static_table))
