-- ===== src/Response/Fields.antt =====
-- `is_success`, `build_raw_headers` and `parse_set_cookies` of src/response.rs. A `HashMap` is an
-- association list in which an insertion replaces the entry of the same key.
use blasthttp.Common.{
  ℕ, Bool, true, false, ◌&&◌, if◌then◌else◌, leb, ltb, Option, none, some, List, [], ◌∷◌, ◌++◌,
}
use blasthttp.Common.Bytes.{Bytes, codes}
use blasthttp.Common.Text.{same, split_first, split_once, trim}
use blasthttp.Config.Suffix.{eq_ignore_case}

abbrev pub is_success : ℕ → Bool
is_success status = leb 200 status && ltb status 400

abbrev pub crlf : Bytes
crlf = 13 ∷ (10 ∷ [])

-- The loop: what has been written, and whether nothing has been.
abbrev pub raw_headers_loop : Bytes → Bool → List (Bytes × Bytes) → Bytes
raw_headers_loop out first [] = out
raw_headers_loop out first ((k, v) ∷ headers) =
    raw_headers_loop ((if first then out else out ++ crlf) ++ (k ++ (codes ": " ++ v))) false
      headers

unfoldable pub build_raw_headers : List (Bytes × Bytes) → Bytes
build_raw_headers headers = raw_headers_loop [] true headers

abbrev pub Map : Type 0
Map = List (Bytes × Bytes)

abbrev pub insert : Bytes → Bytes → Map → Map
insert key value [] = (key, value) ∷ []
insert key value ((k, v) ∷ entries) =
    let rest = insert key value entries in
    if same k key then (k, value) ∷ entries else (k, v) ∷ rest

unfoldable pub get : Bytes → Map → Option Bytes
get key [] = none
get key ((k, v) ∷ entries) = let rest = get key entries in if same k key then some v else rest

-- The pair before the attributes.
abbrev pub cookie_pair : Bytes × Bytes → Option (Bytes × Bytes)
cookie_pair (k, v) =
    if eq_ignore_case k (codes "set-cookie")
    then elim (split_once b'=' (split_first b';' v).0) [
      | none ↦ none
      | some (name, value) ↦ some (trim name, trim value)
    ]
    else none

abbrev pub insert_pair : Option (Bytes × Bytes) → Map → Map
insert_pair none out = out
insert_pair (some (name, value)) out = insert name value out

abbrev pub set_cookies_loop : Map → List (Bytes × Bytes) → Map
set_cookies_loop out [] = out
set_cookies_loop out (header ∷ headers) =
    set_cookies_loop (insert_pair (cookie_pair header) out) headers

unfoldable pub parse_set_cookies : List (Bytes × Bytes) → Map
parse_set_cookies headers = set_cookies_loop [] headers
