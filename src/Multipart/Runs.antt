-- ===== src/Multipart/Runs.antt =====
-- A file whose name tries to end its line.
use blasthttp.Common.{◌≡◌, refl, Option, none, some, [], ◌∷◌}
use blasthttp.Common.Bytes.{Bytes, codes}
use blasthttp.Common.Result.{ok}
use blasthttp.Multipart.Parts.{
  text, bytes, Value, sequence, ParsedPart, parse_value, part_bytes, build_multipart,
}
use blasthttp.Multipart.Quoted.{
  read_disposition, first_line, IsQuoted, IsQuotedName, write_part-IsQuoted,
}

abbrev a_file : Value
a_file = sequence (text (codes "a\"\r\nb") ∷ (bytes (codes "data") ∷ []))

abbrev a_part : ParsedPart
a_part = record {
  filename = some (codes "a\"\r\nb");
  content_type = none;
  content = codes "data";
  extra_headers = [];
}

build_multipart_test :
    build_multipart (codes "B") ((text (codes "f"), a_file) ∷ [])
    ≡ ok (
        codes
          "--B\r\nContent-Disposition: form-data; name=\"f\"; filename=\"a%22%0D%0Ab\"\r\nContent-Type: application/octet-stream\r\n\r\ndata\r\n--B--\r\n")
unfolding build_multipart
build_multipart_test = refl

write_part-IsQuoted_example :
    (p : ParsedPart) × (parse_value a_file ≡ ok p)
    × ((n : Bytes) × (f : Option Bytes) × (read_disposition
            (first_line (codes "B") (part_bytes (codes "B") (codes "f") a_part))
          ≡ some (n, f))
        × IsQuoted (codes "f") n
        × IsQuotedName p.filename f)
write_part-IsQuoted_example =
    write_part-IsQuoted (codes "B") (codes "f") a_file (part_bytes (codes "B") (codes "f") a_part)
      refl
