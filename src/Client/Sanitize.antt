-- ===== src/Client/Sanitize.antt =====
-- `sanitize_uri` of src/client/hyper.rs, on the bytes of the string. A byte that is pushed as a
-- character is the UTF-8 form of the character with its number.
use blasthttp.Common.{
  ℕ, ◌+◌, ◌-◌, ◌/◌, ◌%◌, Bool, true, false, ◌&&◌, ◌||◌, if◌then◌else◌, ltb, leb, ◌==◌, [], ◌∷◌,
  ◌++◌,
}
use blasthttp.Common.Bytes.{Bytes}
use blasthttp.Common.Integer.{is_digit}

abbrev pub must_encode : ℕ → Bool
must_encode b =
    b == b' ' || b == 34 || b == b'<' || b == b'>' || b == b'{' || b == b'}' || leb b 31 || b == 127

abbrev pub is_hexdigit : ℕ → Bool
is_hexdigit b = is_digit b || (leb b'a' b && leb b b'f') || (leb b'A' b && leb b b'F')

-- `{:02X}` of a byte
abbrev pub upper_hex : ℕ → ℕ
upper_hex d = if ltb d 10 then d + b'0' else d - 10 + b'A'

-- `b as char`
abbrev pub as_char : ℕ → Bytes
as_char b = if ltb b 128 then b ∷ [] else (192 + b / 64) ∷ (128 + b % 64) ∷ []

abbrev pub encoded : ℕ → Bytes
encoded b = if must_encode b then b'%' ∷ upper_hex (b / 16) ∷ upper_hex (b % 16) ∷ [] else as_char b

abbrev pub is_escape : ℕ → ℕ → ℕ → Bool
is_escape b h l = b == b'%' && is_hexdigit h && is_hexdigit l

unfoldable pub sanitize_uri : Bytes → Bytes
sanitize_uri [] = []
sanitize_uri (b ∷ []) = encoded b
sanitize_uri (b ∷ (h ∷ [])) = encoded b ++ encoded h
sanitize_uri (b ∷ (h ∷ (l ∷ rest))) = elim (is_escape b h l) [
  | true ↦ as_char b ++ (as_char h ++ (as_char l ++ sanitize_uri rest))
  | false ↦ encoded b ++ sanitize_uri (h ∷ (l ∷ rest))
]
