-- ===== src/Response/Lines.antt =====
-- The headers of a response of src/response.rs as one text, and as a reader of its lines finds them.
use blasthttp.Common.{
  ◌≡◌, refl, sym, ap, ◌∙◌, false, Option, some, List, [], ◌∷◌, ◌++◌, append_assoc, append-nil, All,
}
use blasthttp.Common.Bytes.{Bytes, codes}
use blasthttp.Common.Maybe.{◌>>=◌}
use blasthttp.Common.Split.{contains-append, split_once-append, split_first-cons, split_first-whole}
use blasthttp.Common.Text.{contains, split, split_first, split_once, strip_prefix, starts_with}
use blasthttp.Response.Fields.{crlf, raw_headers_loop, build_raw_headers}

abbrev line_of : Bytes × Bytes → Bytes
line_of (k, v) = k ++ (codes ": " ++ v)

-- The lines behind the first, each behind its line end.
abbrev more_lines : List (Bytes × Bytes) → Bytes
more_lines [] = []
more_lines (h ∷ headers) = crlf ++ (line_of h ++ more_lines headers)

loop_more :
    (headers : List (Bytes × Bytes)) (out : Bytes)
    → raw_headers_loop out false headers ≡ out ++ more_lines headers
loop_more [] out = sym (append-nil out)
loop_more (h ∷ headers) out =
    loop_more headers ((out ++ crlf) ++ line_of h)
    ∙ append_assoc (out ++ crlf) (line_of h) (more_lines headers)
    ∙ append_assoc out crlf (line_of h ++ more_lines headers)

-- A line at a colon; a reader drops the space behind it, and the line feed in front of every line but
-- the first.
abbrev read_line : Bytes → Option (Bytes × Bytes)
read_line line =
    split_once b':' line >>= λ (k, rest). strip_prefix rest (codes " ") >>= λ v. some (k, v)

abbrev read_more : List Bytes → Option (List (Bytes × Bytes))
read_more [] = some []
read_more (piece ∷ pieces) = strip_prefix piece (10 ∷ []) >>= λ line.
    read_line line >>= λ header. read_more pieces >>= λ headers. some (header ∷ headers)

abbrev read_headers : List Bytes → Option (List (Bytes × Bytes))
read_headers [] = some []
read_headers (first ∷ pieces) =
    read_line first >>= λ header. read_more pieces >>= λ headers. some (header ∷ headers)

-- A header whose name has no colon and that has no carriage return.
record IsField (h : Bytes × Bytes) : Type 0 where
  no_colon : contains b':' h.0 ≡ false
  name_line : contains 13 h.0 ≡ false
  value_line : contains 13 h.1 ≡ false

abbrev continued : List (Bytes × Bytes) → List Bytes
continued [] = []
continued (h ∷ headers) = (10 ∷ line_of h) ∷ continued headers

line_of-plain : (h : Bytes × Bytes) → IsField h → contains 13 (line_of h) ≡ false
line_of-plain (k, v) f =
    contains-append 13 k (codes ": " ++ v) f.name_line
      (contains-append 13 (codes ": ") v refl f.value_line)

split_first-more_lines :
    (headers : List (Bytes × Bytes)) (x : Bytes)
    → contains 13 x ≡ false
    → All IsField headers
    → split_first 13 (x ++ more_lines headers) ≡ (x, continued headers)
split_first-more_lines [] x plain fields =
    ap (split_first 13) (append-nil x) ∙ split_first-whole 13 x plain
split_first-more_lines (h ∷ headers) x plain (f, fields) =
    let line : contains 13 (10 ∷ line_of h) ≡ false = line_of-plain h f in
    split_first-cons 13 x ((10 ∷ line_of h) ++ more_lines headers) plain
    ∙ ap (λ r. (x, r.0 ∷ r.1)) (split_first-more_lines headers (10 ∷ line_of h) line fields)

read_line-line_of : (h : Bytes × Bytes) → IsField h → read_line (line_of h) ≡ some h
unfolding starts_with
read_line-line_of (k, v) f =
    ap (λ o. o >>= λ (n, rest). strip_prefix rest (codes " ") >>= λ x. some (n, x))
      (split_once-append b':' k (b' ' ∷ v) f.no_colon)

read_more-continued :
    (headers : List (Bytes × Bytes))
    → All IsField headers
    → read_more (continued headers) ≡ some headers
unfolding starts_with
read_more-continued [] fields = refl
read_more-continued (h ∷ headers) (f, fields) =
    ap (λ o. o >>= λ header. read_more (continued headers) >>= λ hs. some (header ∷ hs))
      (read_line-line_of h f)
    ∙ ap (λ o. o >>= λ hs. some (h ∷ hs)) (read_more-continued headers fields)

-- The raw text of one or more headers, whose names have no colon and which have no carriage returns, is
-- read back line by line as the same headers in the same order.
read_headers-build_raw_headers :
    (h : Bytes × Bytes) (headers : List (Bytes × Bytes))
    → IsField h
    → All IsField headers
    → read_headers (split 13 (build_raw_headers (h ∷ headers))) ≡ some (h ∷ headers)
unfolding build_raw_headers
read_headers-build_raw_headers h headers f fields =
    ap (λ t. read_headers (split 13 t)) (loop_more headers (line_of h))
    ∙ ap (λ r. read_headers (r.0 ∷ r.1))
        (split_first-more_lines headers (line_of h) (line_of-plain h f) fields)
    ∙ ap (λ o. o >>= λ header. read_more (continued headers) >>= λ hs. some (header ∷ hs))
        (read_line-line_of h f)
    ∙ ap (λ o. o >>= λ hs. some (h ∷ hs)) (read_more-continued headers fields)
