-- ===== src/H2/Hpack/Decoder/Updates.antt =====
-- Size updates one after the other.
use blasthttp.Common.{
  ℕ, zero, suc, ◌<◌, ◌≤◌, ◌≡◌, ◌==◌, refl, sym, ap, length, ◌∙◌, inl, inr, Bool-cases, Option-cases,
  ltb, true, not, bit_and, arith,
}
use blasthttp.Common.Bytes.{Bytes}
use blasthttp.Common.Result.{ok, err, ok_inj, >>=-eq-ok}
use blasthttp.H2.Hpack.Integer.{table_size_too_large, read_integer}
use blasthttp.H2.Hpack.Table.{
  Decoder, DecodedHeader, add32, evict, pop_back, drop_entry, resize_table, entry_size,
  lookup_index, add_to_dynamic_table,
}
use blasthttp.H2.Hpack.Decoder.{
  Field, size_update, decode_field, read_literal, decode_indexed, decode_incremental,
  decode_size_update, decode_plain,
}

evict-max :
    (fuel room limit : ℕ) (d : Decoder)
    → (evict fuel room limit d).max_table_size ≡ d.max_table_size
unfolding evict
evict-max zero room limit d = refl
evict-max (suc fuel) room limit d =
    elim (Bool-cases (ltb limit (add32 d.dynamic_table_size room))) [
      | inr enough ↦ rw (enough, evict) refl
      | inl over ↦ elim (Option-cases (pop_back d.dynamic_table)) [
        | inl empty ↦ rw (over, empty, evict) refl
        | inr (popped, some_left) ↦
            rw (over, some_left, evict) (evict-max fuel room limit (drop_entry d popped))
      ]
    ]

size_update-max :
    (d : Decoder) (n p : ℕ) {f : Field} → size_update d (n, p) ≡ ok f → f.decoder.max_table_size ≡ n
unfolding size_update resize_table
size_update-max d n p {f} h = elim (Bool-cases (ltb d.max_table_size n)) [
  | inl large ↦ absurd cc
  | inr fits ↦
      ap (λ (f : Field). f.decoder.max_table_size) (sym (ok_inj (rw fits at h)))
      ∙ evict-max (length d.dynamic_table) 0 n (record d { max_table_size = n })
]

add_to_dynamic_table-max :
    (d : Decoder) (e : DecodedHeader) → (add_to_dynamic_table d e).max_table_size ≡ d.max_table_size
unfolding add_to_dynamic_table
add_to_dynamic_table-max d e = elim (Bool-cases (ltb d.max_table_size (entry_size e))) [
  | inl large ↦ rw large refl
  | inr fits ↦ rw fits (evict-max (length d.dynamic_table) (entry_size e) d.max_table_size d)
]

size_update-lower :
    (d : Decoder) (x : ℕ × ℕ) {f : Field}
    → size_update d x ≡ ok f
    → f.decoder.max_table_size ≤ d.max_table_size
unfolding size_update
size_update-lower d (n, p) {f} h = elim (Bool-cases (ltb d.max_table_size n)) [
  | inl large ↦ let no = rw large at h in absurd cc
  | inr fits ↦ let same = size_update-max d n p h in ground (arith, same)
]

-- No field raises the maximum.
decode_field-lower :
    (d : Decoder) (block : Bytes) (b pos : ℕ) {f : Field}
    → decode_field d block b pos ≡ ok f
    → f.decoder.max_table_size ≤ d.max_table_size
unfolding decode_field decode_indexed decode_incremental decode_size_update decode_plain
decode_field-lower d block b pos {f} h = elim (Bool-cases (not (bit_and b 0x80 == 0))) [
  | inl i ↦
      let ((idx, p), _, rest) = >>=-eq-ok (read_integer block pos 7) _ (rw i at h) in
      let (e, _, end) = >>=-eq-ok (lookup_index d idx) _ rest in
      let same = ap (λ (f : Field). f.decoder.max_table_size) (ok_inj end) in omega (arith, same)
  | inr i ↦ elim (Bool-cases (bit_and b 0xc0 == 0x40)) [
    | inl j ↦
        let ((e, p), _, end) = >>=-eq-ok (read_literal d block pos 6) _ (rw (i, j) at h) in
        let same = ap (λ (f : Field). f.decoder.max_table_size) (ok_inj end) in
        let kept = add_to_dynamic_table-max d e in omega (arith, same, kept)
    | inr j ↦ elim (Bool-cases (bit_and b 0xe0 == 0x20)) [
      | inl k ↦
          let (x, _, end) = >>=-eq-ok (read_integer block pos 5) _ (rw (i, j, k) at h) in
          size_update-lower d x end
      | inr k ↦
          let ((e, p), _, end) = >>=-eq-ok (read_literal d block pos 4) _ (rw (i, j, k) at h) in
          let same = ap (λ (f : Field). f.decoder.max_table_size) (ok_inj end) in
          omega (arith, same)
    ]
  ]
]

-- The decoders that a decoder becomes as it reads fields, of one block or of several.
pub data Later : Decoder → Decoder → Type 0 where
  now : (d : Decoder) → Later d d
  field :
      (d later : Decoder) (block : Bytes) (b pos : ℕ) (f : Field)
      → decode_field d block b pos ≡ ok f
      → Later f.decoder later
      → Later d later

Later-lower : {d later : Decoder} → Later d later → later.max_table_size ≤ d.max_table_size
Later-lower (now d) = omega arith
Later-lower (field d later block b pos f e others) =
    let first = decode_field-lower d block b pos e in
    let next = Later-lower others in omega (arith, first, next)

-- Once a size update has set the table to `n` bytes, a size update to more is refused after any fields
-- that are read in between, whatever maximum was announced before. The error names the maximum that is
-- then in force, which is at most `n`.
pub size_update_refused :
    (d : Decoder) (n m p q : ℕ) {f : Field} (later : Decoder)
    → size_update d (n, p) ≡ ok f
    → Later f.decoder later
    → n < m
    → (later.max_table_size ≤ n)
      × (size_update later (m, q) ≡ err (table_size_too_large m later.max_table_size))
unfolding size_update
size_update_refused d n m p q {f} later first fields more =
    let same : f.decoder.max_table_size ≡ n = size_update-max d n p first in
    let lower = Later-lower fields in
    let small : later.max_table_size ≤ n = omega (arith, same, lower) in
    let large : ltb later.max_table_size m ≡ true = ground (arith, small) in (small, rw large refl)
