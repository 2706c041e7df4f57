-- ===== src/Multipart/Parts.antt =====
-- `build_multipart` of src/multipart.rs with the functions it calls, on the Python values they
-- distinguish. The boundary is a parameter.
use blasthttp.Common.{◌==◌, if◌then◌else◌, Option, none, some, List, [], ◌∷◌, ◌++◌, ℕ}
use blasthttp.Common.Bytes.{Bytes, codes}
use blasthttp.Common.Result.{Result, ok, err, ◌>>=◌}

-- A Python object: `None`, `bytes`, `str`, a dict with what extracting its entries gives, or another
-- object. The last two hold what `str` of them gives.
pub data Item : Type 0 where
  nothing : Item
  bytes text : Bytes → Item
  dict : (shown : Bytes) (entries : Result Bytes (List (Bytes × Bytes))) → Item
  object : (shown : Bytes) → Item

-- A value of `files`: a tuple or a list, or another object.
pub data Value : Type 0 where
  sequence : List Item → Value
  scalar : Item → Value

pub record ParsedPart : Type 0 where
  pub filename : Option Bytes
  pub content_type : Option Bytes
  pub content : Bytes
  pub extra_headers : List (Bytes × Bytes)

abbrev pub coerce_content : Item → Bytes
coerce_content nothing = []
coerce_content (bytes b) = b
coerce_content (text s) = s
coerce_content (dict shown entries) = shown
coerce_content (object shown) = shown

abbrev pub optional_text : Bytes → Item → Result Bytes (Option Bytes)
optional_text message nothing = ok none
optional_text message (text s) = ok (some s)
optional_text message _ = err message

abbrev pub filename_of : Item → Result Bytes (Option Bytes)
filename_of = optional_text (codes "files tuple filename must be a string or None")

abbrev pub content_type_of : Item → Result Bytes (Option Bytes)
content_type_of = optional_text (codes "files tuple content_type must be a string or None")

abbrev pub headers_of : Item → Result Bytes (List (Bytes × Bytes))
headers_of nothing = ok []
headers_of (dict shown entries) = entries
headers_of _ = err (codes "files tuple headers must be a dict or None")

abbrev pub part_of :
    Item
    → Result Bytes (Option Bytes)
    → Result Bytes (List (Bytes × Bytes))
    → Option Bytes
    → Result Bytes ParsedPart
part_of content content_type extra_headers filename = content_type >>= λ ct.
    extra_headers >>= λ headers. ok record {
      filename = filename;
      content_type = ct;
      content = coerce_content content;
      extra_headers = headers;
    }

-- Two to four elements: a file name, the content, its type, and more headers.
abbrev pub parse_sequence : List Item → Result Bytes ParsedPart
parse_sequence (f ∷ (c ∷ [])) = filename_of f >>= part_of c (ok none) (ok [])
parse_sequence (f ∷ (c ∷ (t ∷ []))) = filename_of f >>= part_of c (content_type_of t) (ok [])
parse_sequence (f ∷ (c ∷ (t ∷ (h ∷ [])))) =
    filename_of f >>= part_of c (content_type_of t) (headers_of h)
parse_sequence _ = err (
    codes
      "files value tuple must have 2-4 elements: (filename, content[, content_type[, headers]])")

abbrev pub parse_value : Value → Result Bytes ParsedPart
parse_value (sequence items) = parse_sequence items
parse_value (scalar item) = ok record {
  filename = none;
  content_type = none;
  content = coerce_content item;
  extra_headers = [];
}

abbrev pub quote_char : ℕ → Bytes
quote_char c =
    if c == b'\\'
    then codes "%5C"
    else if c == 34
    then codes "%22"
    else if c == 13
    then codes "%0D"
    else if c == 10
    then codes "%0A"
    else c ∷ []

abbrev pub quote_header : Bytes → Bytes
quote_header [] = []
quote_header (c ∷ s) = quote_char c ++ quote_header s

abbrev pub crlf : Bytes
crlf = 13 ∷ (10 ∷ [])

abbrev pub filename_text : Option Bytes → Bytes
filename_text none = []
filename_text (some filename) = codes "; filename=\"" ++ (quote_header filename ++ codes "\"")

abbrev pub disposition : Bytes → Option Bytes → Bytes
disposition name filename =
    codes "Content-Disposition: form-data; name=\""
    ++ (quote_header name ++ (codes "\"" ++ filename_text filename))

abbrev pub content_type_text : Option Bytes → Option Bytes → Bytes
content_type_text (some ct) filename = codes "Content-Type: " ++ (ct ++ crlf)
content_type_text none (some filename) = codes "Content-Type: application/octet-stream" ++ crlf
content_type_text none none = []

abbrev pub headers_text : List (Bytes × Bytes) → Bytes
headers_text [] = []
headers_text ((k, v) ∷ headers) = k ++ (codes ": " ++ (v ++ (crlf ++ headers_text headers)))

abbrev pub part_bytes : Bytes → Bytes → ParsedPart → Bytes
part_bytes boundary name part =
    codes "--"
    ++ (boundary
        ++ (crlf
            ++ (disposition name part.filename
                ++ (crlf
                    ++ (content_type_text part.content_type part.filename
                        ++ (headers_text part.extra_headers
                            ++ (crlf ++ (part.content ++ crlf))))))))

abbrev pub write_part : Bytes → Bytes → Value → Result Bytes Bytes
write_part boundary name value = parse_value value >>= λ part. ok (part_bytes boundary name part)

abbrev pub key_of : Item → Result Bytes Bytes
key_of (text name) = ok name
key_of _ = err (codes "files dict keys must be strings")

abbrev pub write_parts : Bytes → List (Item × Value) → Result Bytes Bytes
write_parts boundary [] = ok []
write_parts boundary ((key, value) ∷ files) = key_of key >>= λ name.
    write_part boundary name value >>= λ part.
    write_parts boundary files >>= λ rest. ok (part ++ rest)

unfoldable pub build_multipart : Bytes → List (Item × Value) → Result Bytes Bytes
build_multipart boundary files =
    write_parts boundary files >>= λ body. ok (body ++ (codes "--" ++ (boundary ++ codes "--\r\n")))
