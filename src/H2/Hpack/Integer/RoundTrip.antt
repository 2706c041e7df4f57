-- ===== src/H2/Hpack/Integer/RoundTrip.antt =====
-- `read_integer` on what `write_integer` wrote.
use blasthttp.Common.{
  ℕ, zero, suc, ◌+◌, ◌-◌, ◌*◌, ◌/◌, ◌%◌, ◌^◌, ◌≤◌, ◌<◌, bit_and, bit_or, ◌≡◌, sym, ap, ◌∙◌,
  if◌then◌else◌, ltb, leb, Bool-cases, inl, inr, ltb→lt, [], ◌∷◌, ◌++◌, length, drop, append_assoc,
  drop-length-append, arith, length-append,
}
use native.Mathlib.Nat.{mod-eq_of_lt, add-mul-mod_self_right, pow-le-pow_right}
use blasthttp.Common.Bits.{bit_and_mask, bit_or_low, bit_or_high, top_bit}
use blasthttp.Common.Bytes.{Bytes}
use blasthttp.Common.Digits.{pow_add, pow_pos}
use blasthttp.Common.Result.{ok}
use blasthttp.H2.Hpack.Integer.{
  write_groups, write_integer, add_bloat, read_groups, read_integer_from, read_integer,
}

-- The groups of seven bits of a number, lowest first, as the encoder writes them.
unfoldable pub groups : ℕ → ℕ → Bytes
groups zero v = v ∷ []
groups (suc k) v =
    let rest = groups k (v / 128) in if leb 128 v then (v % 128 + 128) ∷ rest else v ∷ []

inner_group : (v : ℕ) → bit_or (bit_and v 0x7f % 256) 0x80 ≡ v % 128 + 128
inner_group v =
    ap (λ (t : ℕ). bit_or (t % 256) 0x80) (bit_and_mask 7 v)
    ∙ ap (λ (t : ℕ). bit_or t 0x80) (omega arith)
    ∙ bit_or_high 7 1 (v % 128) (omega arith)

pub write_groups-groups :
    (k v : ℕ) (out : Bytes) → v < 128 ^ suc k → write_groups k v out ≡ out ++ groups k v
unfolding write_groups groups
write_groups-groups zero v out h = ap (λ b. out ++ b ∷ []) (omega arith)
write_groups-groups (suc k) v out h = ground (
  arith,
  inner_group v,
  write_groups-groups k (v / 128) (out ++ (v % 128 + 128) ∷ []) (omega arith),
  append_assoc out ((v % 128 + 128) ∷ []) (groups k (v / 128)),
)

-- One round of `read_groups` on a last byte, and on one with the top bit set.
last_byte :
    (w acc shift p : ℕ) (rest : Bytes)
    → w < 128
    → shift < 32
    → acc + w * 2 ^ shift < 2 ^ 32
    → read_groups (w ∷ rest) p acc shift ≡ ok (acc + w * 2 ^ shift, p + 1)
unfolding read_groups
last_byte w acc shift p rest hw hs fits = ground (arith, bit_and_mask 7 w, top_bit w)

pub inner_byte :
    (g acc shift p : ℕ) (rest : Bytes)
    → g < 128
    → shift < 32
    → acc + g * 2 ^ shift < 2 ^ 32
    → read_groups ((g + 128) ∷ rest) p acc shift
      ≡ read_groups rest (p + 1) (acc + g * 2 ^ shift) (shift + 7)
unfolding read_groups
inner_byte g acc shift p rest hg hs fits =
    ground (arith, bit_and_mask 7 (g + 128), top_bit (g + 128))

-- A number at bit `s` is its lowest group there and the others seven bits up.
pub split_group : (v s : ℕ) → v * 2 ^ s ≡ v % 128 * 2 ^ s + v / 128 * 2 ^ (s + 7)
split_group v s =
    let parts : v ≡ v / 128 * 128 + v % 128 = omega arith in
    let up : v / 128 * 2 ^ (s + 7) ≡ v / 128 * (2 ^ s * 2 ^ 7) =
      ap (λ place. v / 128 * place) (pow_add s 7) in
    omega (up, ap (λ n. n * 2 ^ s) parts, arith)

read_groups-groups :
    (k w acc shift p : ℕ) (rest : Bytes)
    → w < 128 ^ suc k
    → shift + 7 * k ≤ 28
    → acc + w * 2 ^ shift < 2 ^ 32
    → read_groups (groups k w ++ rest) p acc shift
      ≡ ok (acc + w * 2 ^ shift, p + length (groups k w))
unfolding groups
read_groups-groups zero w acc shift p rest hw hs fits =
    last_byte w acc shift p rest (omega arith) (omega arith) fits
read_groups-groups (suc k) w acc shift p rest hw hs fits = ground (
  arith,
  last_byte w acc shift p rest,
  split_group w shift,
  inner_byte (w % 128) acc shift p (groups k (w / 128) ++ rest),
  read_groups-groups k (w / 128) (acc + w % 128 * 2 ^ shift) (shift + 7) (p + 1) rest (omega arith),
)

-- What `write_integer` appends when nothing is bloated.
unfoldable pub integer_bytes : ℕ → ℕ → ℕ → Bytes
integer_bytes value n pattern =
    if ltb value (2 ^ n - 1)
    then (pattern + value) ∷ []
    else (pattern + (2 ^ n - 1)) ∷ groups 4 (value - (2 ^ n - 1))

-- A prefix of `n` bits with a representation pattern above it.
pub record IsPrefix (n pattern : ℕ) : Type 0 where
  pub short : n ≤ 8
  pub high : ℕ
  pub above : pattern ≡ high * 2 ^ n

small_power : (n : ℕ) → n ≤ 8 → 2 ^ n ≤ 256
small_power n h = pow-le-pow_right {n = 2} (omega arith) h

pub or_pattern :
    {n pattern : ℕ} (v : ℕ)
    → IsPrefix n pattern
    → v < 2 ^ n
    → bit_or pattern (v % 256) ≡ pattern + v
or_pattern {n} {pattern} v p h =
    let same : v % 256 ≡ v = omega (arith, small_power n p.short) in
    ap (bit_or pattern) same
    ∙ ap (λ (t : ℕ). bit_or t v) p.above
    ∙ bit_or_low n p.high v h
    ∙ ap (λ (t : ℕ). t + v) (sym p.above)

pub mask_pattern :
    {n pattern : ℕ} (v : ℕ) → IsPrefix n pattern → v < 2 ^ n → bit_and (pattern + v) (2 ^ n - 1) ≡ v
mask_pattern {n} {pattern} v p h =
    bit_and_mask n (pattern + v)
    ∙ ap (λ (t : ℕ). t % 2 ^ n) (omega (arith, p.above))
    ∙ add-mul-mod_self_right v p.high (2 ^ n)
    ∙ mod-eq_of_lt h

pub write_integer-integer_bytes :
    (out : Bytes) (value : ℕ) {n pattern : ℕ}
    → IsPrefix n pattern
    → value < 2 ^ 32
    → write_integer out value n pattern 0 ≡ out ++ integer_bytes value n pattern
unfolding write_integer add_bloat integer_bytes
write_integer-integer_bytes out value {n} {pattern} p h =
    elim (Bool-cases (ltb value (2 ^ n - 1))) [
      | inl small ↦
          rw small
            (ap (λ b. out ++ b ∷ []) (or_pattern value p (omega (arith, ltb→lt value _ small))))
      | inr large ↦ rw large (
          write_groups-groups 4 (value - (2 ^ n - 1)) _ (omega arith)
          ∙ append_assoc out _ _
          ∙ ap (λ b. out ++ b ∷ groups 4 (value - (2 ^ n - 1)))
              (or_pattern (2 ^ n - 1) p (omega (arith, pow_pos n))))
    ]

read_integer_from-integer_bytes :
    (rest : Bytes) (pos value : ℕ) {n pattern : ℕ}
    → IsPrefix n pattern
    → value < 2 ^ 32
    → read_integer_from (integer_bytes value n pattern ++ rest) pos n
      ≡ ok (value, pos + length (integer_bytes value n pattern))
unfolding read_integer_from integer_bytes
read_integer_from-integer_bytes rest pos value {n} {pattern} p h =
    let top : ℕ = 2 ^ n - 1 in
    let fits : top < 2 ^ n = omega (arith, pow_pos n) in
    elim (Bool-cases (ltb value top)) [
      | inl small ↦
          let below : value < 2 ^ n = omega (arith, ltb→lt value top small) in
          ground (arith, mask_pattern value p below)
      | inr large ↦ ground (
        arith,
        mask_pattern top p fits,
        read_groups-groups 4 (value - top) top 0 (pos + 1) rest (omega arith) (omega arith),
      )
    ]

-- A decoder that stands in `buf` before the bytes of an integer of 32 bits reads that integer, and
-- stands behind those bytes.
pub read_integer-integer_bytes :
    (buf rest : Bytes) (pos value : ℕ) {n pattern : ℕ}
    → IsPrefix n pattern
    → value < 2 ^ 32
    → drop pos buf ≡ integer_bytes value n pattern ++ rest
    → read_integer buf pos n ≡ ok (value, pos + length (integer_bytes value n pattern))
unfolding read_integer
read_integer-integer_bytes buf rest pos value {n} p h stands =
    ap (λ l. read_integer_from l pos n) stands ∙ read_integer_from-integer_bytes rest pos value p h

-- An integer of 32 bits that is written without bloat, behind anything and before anything, is read
-- back, and the reader stands behind it.
read_integer-write_integer :
    (out rest : Bytes) (value : ℕ) {n pattern : ℕ}
    → IsPrefix n pattern
    → value < 2 ^ 32
    → read_integer (write_integer out value n pattern 0 ++ rest) (length out) n
      ≡ ok (value, length (write_integer out value n pattern 0))
read_integer-write_integer out rest value {n} {pattern} p h =
    let written = integer_bytes value n pattern in
    let same : write_integer out value n pattern 0 ≡ out ++ written =
      write_integer-integer_bytes out value p h in
    rw same (
      read_integer-integer_bytes (out ++ written ++ rest) rest (length out) value p h
        (ap (drop (length out)) (append_assoc out written rest) ∙ drop-length-append out _)
      ∙ ap (λ k. ok (value, k)) (sym (length-append out written)))
