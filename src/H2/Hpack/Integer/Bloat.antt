-- ===== src/H2/Hpack/Integer/Bloat.antt =====
-- What the bloat of `write_integer` does to the value that a decoder reads.
use blasthttp.Common.{
  ℕ, zero, suc, ◌+◌, ◌-◌, ◌*◌, ◌/◌, ◌%◌, ◌^◌, ◌≤◌, ◌<◌, ◌≡◌, ◌≢◌, refl, sym, ap, ◌∙◌, ltb, leb,
  Bool-cases, inl, inr, leb→le, [], ◌∷◌, ◌++◌, append_assoc, arith, false, replicate,
}
use blasthttp.Common.Bits.{bit_and_mask, top_bit}
use blasthttp.Common.Bytes.{Bytes}
use blasthttp.Common.Digits.{pow_add, pow_pos, shift_wraps}
use blasthttp.Common.Result.{ok}
use blasthttp.H2.Hpack.Integer.{
  write_integer, add_bloat, insert_before_last, read_groups, read_integer_from, read_integer,
}
use blasthttp.H2.Hpack.Integer.RoundTrip.{
  groups, inner_byte, split_group, IsPrefix, or_pattern, mask_pattern, write_groups-groups,
}
use native.Mathlib.Nat.{pow-le-pow_right}

-- A last group at a higher place counts for something else, also where bits are dropped.
place_differs :
    (w shift s : ℕ) → 0 < w → w < 128 → shift + 7 ≤ s → s < 32 → w * 2 ^ s % 2 ^ 32 ≢ w * 2 ^ shift
place_differs w shift s pos small above room e =
    let r : ℕ = w % 2 ^ (32 - s) in
    let wraps : r * 2 ^ s ≡ w * 2 ^ shift = sym (shift_wraps 32 s w (omega arith)) ∙ e in
    let grows : 128 * 2 ^ shift ≤ 2 ^ s =
      omega (arith, pow_add shift 7, pow-le-pow_right {n = 2} (omega arith) above) in
    let some_value : 1 ≤ w * 2 ^ shift = grind (arith, pow_pos shift) in
    let bound : w * 2 ^ shift < 128 * 2 ^ shift = grind (arith, pow_pos shift) in
    no_multiple r (2 ^ s) (w * 2 ^ shift) wraps some_value (omega arith)
  where
    no_multiple : (r t v : ℕ) → r * t ≡ v → 1 ≤ v → v < t → ⊥
    no_multiple zero t v e p q = omega arith
    no_multiple (suc r) t v e p q = grind arith

last_byte_moved :
    (w acc shift s p q : ℕ) (rest : Bytes)
    → 0 < w
    → w < 128
    → shift + 7 ≤ s
    → read_groups (w ∷ rest) p acc s ≢ ok (acc + w * 2 ^ shift, q)
unfolding read_groups
last_byte_moved w acc shift s p q rest pos small above e = elim (Bool-cases (leb 32 s)) [
  | inl far ↦ ground (arith, far)
  | inr near ↦ ground (arith, place_differs w shift s, bit_and_mask 7 w, top_bit w)
]

filler_byte :
    (acc s p : ℕ) (rest : Bytes)
    → s < 32
    → acc < 2 ^ 32
    → read_groups (0x80 ∷ rest) p acc s ≡ read_groups rest (p + 1) acc (s + 7)
filler_byte acc s p rest room fits =
    inner_byte 0 acc s p rest (omega arith) room (omega arith)
    ∙ ap (λ t. read_groups rest (p + 1) t (s + 7)) (omega arith)

filler_moves :
    (b w acc shift s p q : ℕ) (rest : Bytes)
    → 0 < w
    → w < 128
    → shift + 7 ≤ s
    → acc < 2 ^ 32
    → read_groups (replicate b 0x80 ++ w ∷ rest) p acc s ≢ ok (acc + w * 2 ^ shift, q)
filler_moves zero w acc shift s p q rest pos small above fits e =
    last_byte_moved w acc shift s p q rest pos small above e
filler_moves (suc b) w acc shift s p q rest pos small above fits e = elim (Bool-cases (leb 32 s)) [
  | inl far ↦ unfold read_groups in ground (arith, far)
  | inr near ↦
      filler_moves b w acc shift (s + 7) (p + 1) q rest pos small (omega arith) fits
        (sym (filler_byte acc s p _ (ground arith) fits) ∙ e)
]

insert_before_last_lem :
    (xs : Bytes) (y : ℕ) → insert_before_last (xs ++ y ∷ []) ≡ xs ++ 0x80 ∷ y ∷ []
unfolding insert_before_last
insert_before_last_lem [] y = refl
insert_before_last_lem (x ∷ []) y = refl
insert_before_last_lem (x ∷ z ∷ xs) y = ap (λ l. x ∷ l) (insert_before_last_lem (z ∷ xs) y)

add_bloat_lem :
    (b : ℕ) (xs : Bytes) (y : ℕ) → add_bloat b (xs ++ y ∷ []) ≡ xs ++ (replicate b 0x80 ++ y ∷ [])
unfolding add_bloat
add_bloat_lem zero xs y = refl
add_bloat_lem (suc b) xs y =
    ap (add_bloat b) (insert_before_last_lem xs y ∙ sym (append_assoc xs (0x80 ∷ []) (y ∷ [])))
    ∙ add_bloat_lem b (xs ++ 0x80 ∷ []) y
    ∙ append_assoc xs (0x80 ∷ []) _

groups_snoc : (k v : ℕ) → (xs : Bytes) × (y : ℕ) × (groups k v ≡ xs ++ y ∷ [])
unfolding groups
groups_snoc zero v = ([], v, refl)
groups_snoc (suc k) v = elim (Bool-cases (leb 128 v)) [
  | inl more ↦
      let (xs, y, e) = groups_snoc k (v / 128) in
      ((v % 128 + 128) ∷ xs, y, rw more (ap (λ l. (v % 128 + 128) ∷ l) e))
  | inr last ↦ ([], v, rw last)
]

add_bloat-cons : (b x k v : ℕ) → add_bloat b (x ∷ groups k v) ≡ x ∷ add_bloat b (groups k v)
add_bloat-cons b x k v =
    let (xs, y, e) = groups_snoc k v in
    ap (λ l. add_bloat b (x ∷ l)) e
    ∙ add_bloat_lem b (x ∷ xs) y
    ∙ ap (λ l. x ∷ l) (sym (add_bloat_lem b xs y) ∙ ap (add_bloat b) (sym e))

single_group :
    (b w acc shift p q : ℕ) (rest : Bytes)
    → 0 < w
    → w < 128
    → shift < 32
    → acc < 2 ^ 32
    → read_groups (add_bloat (suc b) (w ∷ []) ++ rest) p acc shift ≢ ok (acc + w * 2 ^ shift, q)
single_group b w acc shift p q rest pos small room fits e =
    let tail : Bytes = replicate b 0x80 ++ w ∷ rest in
    let bytes : add_bloat (suc b) (w ∷ []) ++ rest ≡ 0x80 ∷ tail =
      ap (λ l. l ++ rest) (add_bloat_lem (suc b) [] w)
      ∙ ap (λ l. 0x80 ∷ l) (append_assoc (replicate b 0x80) (w ∷ []) rest) in
    filler_moves b w acc shift (shift + 7) (p + 1) q rest pos small (omega arith) fits (
      sym (filler_byte acc shift p tail room fits)
      ∙ ap (λ l. read_groups l p acc shift) (sym bytes)
      ∙ e)

bloated_groups :
    (k b w acc shift p q : ℕ) (rest : Bytes)
    → 0 < w
    → w < 128 ^ suc k
    → shift + 7 * k ≤ 28
    → acc + w * 2 ^ shift < 2 ^ 32
    → read_groups (add_bloat (suc b) (groups k w) ++ rest) p acc shift ≢ ok (acc + w * 2 ^ shift, q)
unfolding groups
bloated_groups zero b w acc shift p q rest pos hw hs fits =
    single_group b w acc shift p q rest pos (omega arith) (omega arith) (omega arith)
bloated_groups (suc k) b w acc shift p q rest pos hw hs fits = elim (Bool-cases (leb 128 w)) [
  | inr last ↦
      rw last (single_group b w acc shift p q rest pos (ground arith) (omega arith) (omega arith))
  | inl more ↦
      let g : ℕ = w % 128 in
      let split = split_group w shift in
      let first =
        inner_byte g acc shift p (add_bloat (suc b) (groups k (w / 128)) ++ rest) (omega arith)
          (omega arith) (omega arith) in
      rw (more, add_bloat-cons (suc b) (g + 128) k (w / 128))
        (λ e.
          bloated_groups k b (w / 128) (acc + g * 2 ^ shift) (shift + 7) (p + 1) q rest
            (omega (arith, leb→le 128 w more)) (omega arith) (omega arith) (omega arith)
            (sym first ∙ e ∙ ap (λ (t : ℕ). ok (t, q)) (omega arith)))
]

bloated_bytes :
    (value bloat : ℕ) {n pattern : ℕ}
    → IsPrefix n pattern
    → 2 ^ n - 1 < value
    → value < 2 ^ 32
    → write_integer [] value n pattern bloat
      ≡ (pattern + (2 ^ n - 1)) ∷ add_bloat bloat (groups 4 (value - (2 ^ n - 1)))
unfolding write_integer
bloated_bytes value bloat {n} {pattern} p large fits =
    let top : ℕ = 2 ^ n - 1 in
    let below : top < 2 ^ n = omega (arith, pow_pos n) in
    let no_fit : ltb value top ≡ false = ground arith in
    rw no_fit (
      ap (add_bloat bloat) (
        write_groups-groups 4 (value - top) _ (omega arith)
        ∙ ap (λ (t : ℕ). t ∷ groups 4 (value - top)) (or_pattern top p below))
      ∙ add_bloat-cons bloat (pattern + top) 4 (value - top))

read_integer_top :
    (more : Bytes) {n pattern : ℕ}
    → IsPrefix n pattern
    → read_integer ((pattern + (2 ^ n - 1)) ∷ more) 0 n ≡ read_groups more 1 (2 ^ n - 1) 0
unfolding read_integer read_integer_from
read_integer_top more {n} {pattern} p =
    let below : 2 ^ n - 1 < 2 ^ n = omega (arith, pow_pos n) in
    ground (arith, mask_pattern (2 ^ n - 1) p below)

-- A bloated integer is never read as the integer that was written: behind a value that does not fit
-- the prefix, and is not the prefix's own maximum, each bloat byte moves the last group seven places
-- up. The decoder answers another value or an error.
pub bloat_changes_value :
    (rest : Bytes) (value bloat q : ℕ) {n pattern : ℕ}
    → IsPrefix n pattern
    → 2 ^ n - 1 < value
    → value < 2 ^ 32
    → 0 < bloat
    → read_integer (write_integer [] value n pattern bloat ++ rest) 0 n ≢ ok (value, q)
bloat_changes_value rest value zero q p large fits b = absurd (omega arith)
bloat_changes_value rest value (suc bloat) q {n} {pattern} p large fits b =
    let top : ℕ = 2 ^ n - 1 in
    let below : top < 2 ^ n = omega (arith, pow_pos n) in
    let more : Bytes = add_bloat (suc bloat) (groups 4 (value - top)) ++ rest in
    let differs =
      bloated_groups 4 bloat (value - top) top 0 1 q rest (omega arith) (omega arith) (omega arith)
        (omega arith) in
    let sum : top + (value - top) * 2 ^ 0 ≡ value = omega arith in
    let reads : read_integer (write_integer [] value n pattern (suc bloat) ++ rest) 0 n
        ≡ read_groups more 1 top 0 =
      ap (λ l. read_integer (l ++ rest) 0 n) (bloated_bytes value (suc bloat) p large fits)
      ∙ read_integer_top more p in
    λ e. differs (sym reads ∙ e ∙ ap (λ (t : ℕ). ok (t, q)) (sym sum))
