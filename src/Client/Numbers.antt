-- ===== src/Client/Numbers.antt =====
-- What `decimal` writes for a 16-bit number: digits alone, which are read back.
use blasthttp.Common.{
  ℕ, zero, suc, ◌+◌, ◌-◌, ◌*◌, ◌/◌, ◌%◌, ◌^◌, ◌≤◌, ◌<◌, ◌≡◌, refl, sym, ap, ◌∙◌, true, false, ◌||◌,
  Bool, ltb, leb, ◌==◌, Bool-cases, inl, inr, some, [], ◌∷◌, arith,
}
use native.Mathlib.Nat.{pow-suc}
use blasthttp.Common.Bytes.{Bytes}
use blasthttp.Common.Integer.{digits, is_digit, parse_unsigned}
use blasthttp.Common.Text.{contains, is_nil}
use blasthttp.Common.Split.{contains_not}
use blasthttp.Client.Error.{decimal_loop, decimal}

abbrev not_digit : ℕ → Bool
not_digit c = ltb c b'0' || ltb b'9' c

digit_differs : (c d : ℕ) → not_digit c ≡ true → d < 10 → ((d + b'0') == c) ≡ false
digit_differs c d odd small = ground arith

one_digit :
    (fuel n : ℕ) (acc : Bytes) → ltb n 10 ≡ true → decimal_loop (suc fuel) n acc ≡ (n + b'0') ∷ acc
unfolding decimal_loop
one_digit fuel n acc small = rw (small, decimal_loop) refl

more_digits :
    (fuel n : ℕ) (acc : Bytes)
    → ltb n 10 ≡ false
    → decimal_loop (suc fuel) n acc ≡ decimal_loop fuel (n / 10) ((n % 10 + b'0') ∷ acc)
unfolding decimal_loop
more_digits fuel n acc big = rw (big, decimal_loop) refl

contains-decimal_loop :
    (c fuel n : ℕ) (acc : Bytes)
    → not_digit c ≡ true
    → contains c acc ≡ false
    → contains c (decimal_loop fuel n acc) ≡ false
unfolding decimal_loop
contains-decimal_loop c zero n acc odd h = h
contains-decimal_loop c (suc fuel) n acc odd h = elim (Bool-cases (ltb n 10)) [
  | inl small ↦ rw (one_digit fuel n acc small, digit_differs c n odd (ground arith)) h
  | inr big ↦
      let hit : ((n % 10 + b'0') == c) ≡ false = digit_differs c (n % 10) odd (omega arith) in
      rw (more_digits fuel n acc big)
        (contains-decimal_loop c fuel (n / 10) ((n % 10 + b'0') ∷ acc) odd (rw hit h))
]

pub contains-decimal : (c n : ℕ) → not_digit c ≡ true → contains c (decimal n) ≡ false
contains-decimal c n odd = contains-decimal_loop c 20 n [] odd refl

digit_read : (d m : ℕ) (bs : Bytes) → d < 10 → digits m ((d + b'0') ∷ bs) ≡ digits (m * 10 + d) bs
unfolding digits
digit_read d m bs small =
    let ok_digit : is_digit (d + b'0') ≡ true = ground arith in
    let back : m * 10 + (d + b'0' - b'0') ≡ m * 10 + d = omega arith in
    rw (ok_digit, digits) (ap (λ k. digits k bs) back)

zero_plus : (n : ℕ) → 0 * 10 + n ≡ n
zero_plus n = omega arith

digits-decimal_loop :
    (fuel n : ℕ) (acc : Bytes) → n < 10 ^ fuel → digits 0 (decimal_loop fuel n acc) ≡ digits n acc
unfolding decimal_loop
digits-decimal_loop zero n acc h = let e : n ≡ 0 = omega arith in ap (λ k. digits k acc) (sym e)
digits-decimal_loop (suc fuel) n acc h = elim (Bool-cases (ltb n 10)) [
  | inl small ↦
      rw (one_digit fuel n acc small)
        (digit_read n 0 acc (ground arith) ∙ ap (λ k. digits k acc) (zero_plus n))
  | inr big ↦
      let fits : n / 10 < 10 ^ fuel = omega (arith, pow-suc 10 fuel) in
      let whole : n / 10 * 10 + n % 10 ≡ n = omega arith in
      rw (more_digits fuel n acc big) (
        digits-decimal_loop fuel (n / 10) ((n % 10 + b'0') ∷ acc) fits
        ∙ digit_read (n % 10) (n / 10) acc (omega arith)
        ∙ ap (λ k. digits k acc) whole)
]

decimal_loop-is_nil : (fuel n b : ℕ) (acc : Bytes) → is_nil (decimal_loop fuel n (b ∷ acc)) ≡ false
unfolding decimal_loop
decimal_loop-is_nil zero n b acc = refl
decimal_loop-is_nil (suc fuel) n b acc = elim (Bool-cases (ltb n 10)) [
  | inl small ↦ ap is_nil (one_digit fuel n (b ∷ acc) small)
  | inr big ↦
      ap is_nil (more_digits fuel n (b ∷ acc) big)
      ∙ (decimal_loop-is_nil fuel (n / 10) (n % 10 + b'0') (b ∷ acc))
]

decimal-is_nil : (n : ℕ) → is_nil (decimal n) ≡ false
unfolding decimal_loop
decimal-is_nil n = elim (Bool-cases (ltb n 10)) [
  | inl small ↦ ap is_nil (one_digit 19 n [] small)
  | inr big ↦
      ap is_nil (more_digits 19 n [] big) ∙ (decimal_loop-is_nil 19 (n / 10) (n % 10 + b'0') [])
]

unsigned_read :
    (bound n : ℕ) (xs : Bytes)
    → is_nil xs ≡ false
    → contains b'+' xs ≡ false
    → digits 0 xs ≡ some n
    → n ≤ bound
    → parse_unsigned bound xs ≡ some n
unsigned_read bound n [] h plus e fits = absurd cc
unsigned_read bound n (x ∷ xs) h plus e fits =
    let (first, _) = contains_not b'+' x xs plus in
    let inside : leb n bound ≡ true = ground arith in rw (first, e, inside) refl

-- A 16-bit number is read back.
pub parse_unsigned-decimal : (n : ℕ) → n < 2 ^ 16 → parse_unsigned (2 ^ 16 - 1) (decimal n) ≡ some n
unfolding digits
parse_unsigned-decimal n h =
    unsigned_read (2 ^ 16 - 1) n (decimal n) (decimal-is_nil n) (contains-decimal b'+' n refl)
      (digits-decimal_loop 20 n [] (omega arith)) (omega arith)
