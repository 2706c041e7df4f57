-- ===== src/H2/Hpack/Decoder/Progress.antt =====
-- Every read of a header block stands behind where it began, and what it returns is no longer than
-- eight times the block.
use blasthttp.Common.{
  ℕ, ◌<◌, ◌≤◌, ◌+◌, ◌^◌, ◌%◌, ◌*◌, ◌-◌, refl, Bool, true, false, ltb, Option, none, some, [], ◌∷◌,
  length, length-take, length-drop, take, get_elem?, drop, bit_and, arith,
}
use blasthttp.Common.Bytes.{Bytes}
use blasthttp.Common.Result.{Result, ok, err}
use blasthttp.Common.Returns.{Returns, ok-Returns, err-Returns, if-Returns, >>=-Returns}
use blasthttp.H2.Huffman.{HuffmanError, decode}
use blasthttp.H2.Huffman.Length.{decode-Returns}
use blasthttp.H2.Hpack.Integer.{read_groups, read_integer_from, read_integer}
use blasthttp.H2.Hpack.Octets.{
  read_raw, read_octets, read_string_from, read_string, decode_raw, from_huffman,
}

read_groups-Returns :
    (l : Bytes) (p value shift : ℕ) → Returns (λ r. p < r.1) (read_groups l p value shift)
unfolding read_groups
read_groups-Returns [] p value shift = err-Returns
read_groups-Returns (b ∷ rest) p value shift =
    let value' : ℕ = value + bit_and b 0x7f * 2 ^ shift % 2 ^ 32 in
    let more = read_groups-Returns rest (p + 1) value' (shift + 7) in
    record { on_ok = λ r h. ground (arith, more.on_ok r) }

read_integer_from-Returns :
    (l : Bytes) (pos n : ℕ) → Returns (λ r. pos < r.1) (read_integer_from l pos n)
unfolding read_integer_from
read_integer_from-Returns [] pos n = err-Returns
read_integer_from-Returns (b ∷ rest) pos n =
    let more = read_groups-Returns rest (pos + 1) (2 ^ n - 1) 0 in
    record { on_ok = λ r h. ground (arith, more.on_ok r) }

pub read_integer-Returns :
    (buf : Bytes) (pos n : ℕ) → Returns (λ r. pos < r.1) (read_integer buf pos n)
unfolding read_integer
read_integer-Returns buf pos n = read_integer_from-Returns (drop pos buf) pos n

-- A string of the block, and the position behind it.
unfoldable pub IsReadFrom : Bytes → ℕ → Bytes × ℕ → Type 0
IsReadFrom buf pos (s, q) = (pos < q) × (length s ≤ 8 * length buf)

from_huffman-Returns :
    {P : Bytes → Type 0} (r : Result HuffmanError Bytes) → Returns P r → Returns P (from_huffman r)
from_huffman-Returns (ok s) h = ok-Returns (h.on_ok s refl)
from_huffman-Returns (err e) h = err-Returns

decode_raw-Returns :
    (coded : Bool) (raw : Bytes) → Returns (λ s. length s ≤ 8 * length raw) (decode_raw coded raw)
decode_raw-Returns true raw = from_huffman-Returns (decode raw) (decode-Returns raw)
decode_raw-Returns false raw = ok-Returns (omega arith)

length-take-drop : (len p : ℕ) (buf : Bytes) → length (take len (drop p buf)) ≤ length buf
length-take-drop len p buf = omega (arith, length-take len (drop p buf), length-drop p buf)

read_raw-Returns :
    (buf : Bytes) (coded : Bool) (pos len p : ℕ)
    → pos < p
    → Returns (IsReadFrom buf pos) (read_raw buf coded (len, p))
unfolding read_raw IsReadFrom
read_raw-Returns buf coded pos len p h =
    if-Returns (ltb (length buf) (p + len)) (λ _. err-Returns)
      λ _.
        >>=-Returns (decode_raw-Returns coded (take len (drop p buf)))
          λ s short. ok-Returns (omega arith, omega (arith, length-take-drop len p buf))

read_string_from-Returns :
    (buf : Bytes) (pos : ℕ) (first : Option ℕ)
    → Returns (IsReadFrom buf pos) (read_string_from buf pos first)
unfolding read_octets
read_string_from-Returns buf pos none = err-Returns
read_string_from-Returns buf pos (some b) =
    >>=-Returns (read_integer-Returns buf pos 7) λ i h. read_raw-Returns buf _ pos i.0 i.1 h

pub read_string-Returns :
    (buf : Bytes) (pos : ℕ) → Returns (IsReadFrom buf pos) (read_string buf pos)
unfolding read_string
read_string-Returns buf pos = read_string_from-Returns buf pos (get_elem? buf pos)
