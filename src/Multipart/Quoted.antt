-- ===== src/Multipart/Quoted.antt =====
-- Names and file names in the parts that src/multipart.rs writes: a receiver finds them where they are
-- put, whatever they hold.
use blasthttp.Common.{
  ℕ, ◌≡◌, refl, sym, ap, ◌∙◌, Bool, true, false, Bool-cases, inl, inr, ◌||◌, ◌==◌, Option, none,
  some, [], ◌∷◌, ◌++◌, length, drop, append_assoc, drop-length-append, arith,
}
use mathlib.Core.Path.{subst}
use blasthttp.Common.Bytes.{Bytes, codes}
use blasthttp.Common.Maybe.{◌>>=◌}
use blasthttp.Common.Result.{ok, >>=-eq-ok, ok_inj}
use blasthttp.Common.Split.{
  starts_with-append, contains-append, split_once-append, split_first-append, split_first-whole,
}
use blasthttp.Common.Text.{contains, split_once, split_first, strip_prefix}
use blasthttp.Multipart.Parts.{
  Value, parse_value, write_part, content_type_text, headers_text, ParsedPart, quote_char,
  quote_header, filename_text, disposition, part_bytes, crlf,
}

-- The characters that end a quoted string or a line.
abbrev pub is_breaking : ℕ → Bool
is_breaking c = c == 34 || (c == 13 || (c == 10 || c == b'\\'))

contains-quote_char : (c x : ℕ) → is_breaking c ≡ true → contains c (quote_char x) ≡ false
contains-quote_char c x h = ground arith

contains-quote_header :
    (c : ℕ) (s : Bytes) → is_breaking c ≡ true → contains c (quote_header s) ≡ false
contains-quote_header c [] h = refl
contains-quote_header c (x ∷ s) h =
    contains-append c (quote_char x) (quote_header s) (contains-quote_char c x h)
      (contains-quote_header c s h)

-- A receiver reads the name, and the file name if there is one, up to the closing quotes.
abbrev pub read_filename : Bytes → Option (Option Bytes)
read_filename [] = some none
read_filename (c ∷ rest) = strip_prefix (c ∷ rest) (codes "; filename=\"") >>= λ quoted.
    split_once 34 quoted >>= λ (filename, behind). elim behind [
      | [] ↦ some (some filename)
      | _ ∷ _ ↦ none
    ]

abbrev pub read_disposition : Bytes → Option (Bytes × Option Bytes)
read_disposition line =
    strip_prefix line (codes "Content-Disposition: form-data; name=\"") >>= λ quoted.
    split_once 34 quoted >>= λ (name, rest).
    read_filename rest >>= λ filename. some (name, filename)

-- The line behind the boundary, to the first CR or LF.
abbrev pub first_line : Bytes → Bytes → Bytes
first_line boundary part =
    (split_first 10 (split_first 13 (drop (length (codes "--" ++ (boundary ++ crlf))) part)).0).0

-- A text with its quotes, backslashes and line ends as percent codes.
pub data IsQuoted : Bytes → Bytes → Type 0 where
  done : IsQuoted [] []
  quote : (s t : Bytes) → IsQuoted s t → IsQuoted (34 ∷ s) (37 ∷ (50 ∷ (50 ∷ t)))
  backslash : (s t : Bytes) → IsQuoted s t → IsQuoted (b'\\' ∷ s) (37 ∷ (53 ∷ (67 ∷ t)))
  carriage_return : (s t : Bytes) → IsQuoted s t → IsQuoted (13 ∷ s) (37 ∷ (48 ∷ (68 ∷ t)))
  line_feed : (s t : Bytes) → IsQuoted s t → IsQuoted (10 ∷ s) (37 ∷ (48 ∷ (65 ∷ t)))
  kept : (c : ℕ) (s t : Bytes) → is_breaking c ≡ false → IsQuoted s t → IsQuoted (c ∷ s) (c ∷ t)

abbrev pub IsQuotedName : Option Bytes → Option Bytes → Type 0
IsQuotedName none quoted = quoted ≡ none
IsQuotedName (some name) quoted = (t : Bytes) × (quoted ≡ some t) × IsQuoted name t

-- One character in front of a text.
IsQuoted-front :
    (c k : ℕ) (s : Bytes)
    → c ≡ k
    → IsQuoted (k ∷ s) (quote_char k ++ quote_header s)
    → IsQuoted (c ∷ s) (quote_header (c ∷ s))
IsQuoted-front c k s e q = subst (λ x. IsQuoted (x ∷ s) (quote_header (x ∷ s))) (sym e) q

quote_header-IsQuoted : (s : Bytes) → IsQuoted s (quote_header s)
quote_header-IsQuoted [] = IsQuoted.done
quote_header-IsQuoted (c ∷ s) =
    let rest = quote_header-IsQuoted s in
    elim (Bool-cases (c == b'\\')) [
      | inl e ↦ IsQuoted-front c b'\\' s (ground arith) (IsQuoted.backslash s _ rest)
      | inr a ↦ elim (Bool-cases (c == 34)) [
        | inl e ↦ IsQuoted-front c 34 s (ground arith) (IsQuoted.quote s _ rest)
        | inr b ↦ elim (Bool-cases (c == 13)) [
          | inl e ↦ IsQuoted-front c 13 s (ground arith) (IsQuoted.carriage_return s _ rest)
          | inr r ↦ elim (Bool-cases (c == 10)) [
            | inl e ↦ IsQuoted-front c 10 s (ground arith) (IsQuoted.line_feed s _ rest)
            | inr l ↦ rw (a, b, r, l) (IsQuoted.kept c s _ (rw (a, b, r, l) refl) rest)
          ]
        ]
      ]
    ]

abbrev quoted_filename : Option Bytes → Option Bytes
quoted_filename none = none
quoted_filename (some filename) = some (quote_header filename)

quoted_filename-IsQuotedName : (f : Option Bytes) → IsQuotedName f (quoted_filename f)
quoted_filename-IsQuotedName none = refl
quoted_filename-IsQuotedName (some f) = (quote_header f, refl, quote_header-IsQuoted f)

strip_prefix-append : (p rest : Bytes) → strip_prefix (p ++ rest) p ≡ some rest
strip_prefix-append p rest = rw (starts_with-append p rest, drop-length-append p rest) refl

read_filename-filename_text :
    (filename : Option Bytes)
    → read_filename (filename_text filename) ≡ some (quoted_filename filename)
read_filename-filename_text none = refl
read_filename-filename_text (some f) =
    ap
      (λ o. o >>= λ quoted. split_once 34 quoted >>= λ (filename, behind). elim behind [
        | [] ↦ some (some filename)
        | _ ∷ _ ↦ none
      ])
      (strip_prefix-append (codes "; filename=\"") (quote_header f ++ codes "\""))
    ∙ ap (λ o. o >>= λ (filename, behind). elim behind [ [] ↦ some (some filename) | _ ∷ _ ↦ none ])
        (split_once-append 34 (quote_header f) [] (contains-quote_header 34 f refl))

read_disposition-disposition :
    (name : Bytes) (filename : Option Bytes)
    → read_disposition (disposition name filename)
      ≡ some (quote_header name, quoted_filename filename)
read_disposition-disposition name filename =
    ap
      (λ o. o >>= λ quoted.
        split_once 34 quoted >>= λ (n, rest). read_filename rest >>= λ f. some (n, f))
      (strip_prefix-append (codes "Content-Disposition: form-data; name=\"")
        (quote_header name ++ (codes "\"" ++ filename_text filename)))
    ∙ ap (λ o. o >>= λ (n, rest). read_filename rest >>= λ f. some (n, f))
        (split_once-append 34 (quote_header name) (filename_text filename)
          (contains-quote_header 34 name refl))
    ∙ ap (λ o. o >>= λ f. some (quote_header name, f)) (read_filename-filename_text filename)

-- A character that a quoted text is free of, and that no fixed text of the line has.
abbrev Outside : ℕ → Type 0
Outside c =
    (is_breaking c ≡ true)
    × (contains c (codes "; filename=\"") ≡ false)
    × (contains c (codes "\"") ≡ false)
    × (contains c (codes "Content-Disposition: form-data; name=\"") ≡ false)

filename_text-one_line :
    (c : ℕ) → Outside c → (filename : Option Bytes) → contains c (filename_text filename) ≡ false
filename_text-one_line c o none = refl
filename_text-one_line c (o, f, q, d) (some name) =
    contains-append c (codes "; filename=\"") (quote_header name ++ codes "\"") f
      (contains-append c (quote_header name) (codes "\"") (contains-quote_header c name o) q)

disposition-one_line :
    (c : ℕ)
    → Outside c
    → (name : Bytes) (filename : Option Bytes) → contains c (disposition name filename) ≡ false
disposition-one_line c (o, f, q, d) name filename =
    contains-append c (codes "Content-Disposition: form-data; name=\"")
      (quote_header name ++ (codes "\"" ++ filename_text filename)) d
      (contains-append c (quote_header name) (codes "\"" ++ filename_text filename)
        (contains-quote_header c name o)
        (contains-append c (codes "\"") (filename_text filename) q
          (filename_text-one_line c (o, f, q, d) filename)))

first_line-part_bytes :
    (boundary name : Bytes) (part : ParsedPart)
    → first_line boundary (part_bytes boundary name part) ≡ disposition name part.filename
first_line-part_bytes boundary name part =
    let head = codes "--" ++ (boundary ++ crlf) in
    let rest =
      content_type_text part.content_type part.filename
      ++ (headers_text part.extra_headers ++ (crlf ++ (part.content ++ crlf))) in
    let line = disposition name part.filename in
    let whole : part_bytes boundary name part ≡ head ++ (line ++ (13 ∷ (10 ∷ rest))) =
      ap (λ l. codes "--" ++ l) (sym (append_assoc boundary crlf (line ++ (13 ∷ (10 ∷ rest))))) in
    ap (λ l. (split_first 10 (split_first 13 (drop (length head) l)).0).0) whole
    ∙ ap (λ l. (split_first 10 (split_first 13 l).0).0)
        (drop-length-append head (line ++ (13 ∷ (10 ∷ rest))))
    ∙ ap (λ l. (split_first 10 l).0)
        (split_first-append 13 line (10 ∷ rest)
          (disposition-one_line 13 (refl, refl, refl, refl) name part.filename))
    ∙ ap (λ x. x.0)
        (split_first-whole 10 line
          (disposition-one_line 10 (refl, refl, refl, refl) name part.filename))

-- A part that is written has, on the line behind its boundary, which ends at the first CR or LF, exactly
-- the name and the file name that were given, with quotes, backslashes, CR and LF written as %22, %5C,
-- %0D and %0A and all else as it was: no name or file name ends the quoted string or the line.
pub write_part-IsQuoted :
    (boundary name : Bytes) (value : Value) (part : Bytes)
    → write_part boundary name value ≡ ok part
    → (p : ParsedPart) × (parse_value value ≡ ok p)
      × ((n : Bytes) × (f : Option Bytes) × (read_disposition (first_line boundary part)
            ≡ some (n, f))
          × IsQuoted name n
          × IsQuotedName p.filename f)
write_part-IsQuoted boundary name value part h =
    let (p, parsed, e) = >>=-eq-ok (parse_value value) _ h in
    (
      p,
      parsed,
      (
        quote_header name,
        quoted_filename p.filename,
        ap (λ l. read_disposition (first_line boundary l)) (sym (ok_inj e))
            ∙ ap read_disposition (first_line-part_bytes boundary name p)
            ∙ read_disposition-disposition name p.filename,
        quote_header-IsQuoted name,
        quoted_filename-IsQuotedName p.filename,
      ),
    )
