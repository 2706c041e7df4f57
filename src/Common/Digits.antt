-- ===== src/Common/Digits.antt =====
-- The low binary digits of a number, highest first: what a bit buffer holds.
use blasthttp.Common.{
  ℕ, zero, suc, ◌+◌, ◌-◌, ◌*◌, ◌/◌, ◌%◌, ◌^◌, ◌≤◌, ◌<◌, ◌≡◌, refl, sym, ap, ◌∙◌, List, [], ◌∷◌,
  ◌++◌, length, replicate, arith,
}
use mathlib.Core.Path.{ap₂}
use native.Mathlib.Nat.{
  pow-suc, one-le-pow, div-div-eq-div-mul, mul_comm, add-mul-div_right, add-mul-mod_self_right,
  div-add-mod', div-eq_of_lt, mod-lt, mod-eq_of_lt,
}

unfoldable pub bits : ℕ → ℕ → List ℕ
bits zero v = []
bits (suc n) v = v / 2 ^ n % 2 ∷ bits n v

pub length-bits : (n v : ℕ) → length (bits n v) ≡ n
unfolding bits
length-bits zero v = refl
length-bits (suc n) v = ap suc (length-bits n v)

pub pow_add : (n m : ℕ) → 2 ^ (n + m) ≡ 2 ^ n * 2 ^ m
pow_add zero m = let e : zero + m ≡ m = omega arith in ap (λ (k : ℕ). 2 ^ k) e ∙ omega arith
pow_add (suc n) m =
    let e : suc n + m ≡ suc (n + m) = omega arith in
    ap (λ (k : ℕ). 2 ^ k) e
    ∙ omega (
      arith,
      pow-suc 2 (n + m),
      pow-suc 2 n,
      pow_add n m,
      ap (λ (t : ℕ). t * 2 ^ m) (pow-suc 2 n),
    )

pub pow_pos : (n : ℕ) → 1 ≤ 2 ^ n
pow_pos n = one-le-pow n 2 (omega arith)

-- The digits of a shifted number are the high digits.
pub bits-append : (n m v : ℕ) → bits (n + m) v ≡ bits n (v / 2 ^ m) ++ bits m v
unfolding bits
bits-append zero m v = let e : zero + m ≡ m = omega arith in ap (λ k. bits k v) e
bits-append (suc n) m v =
    let e : suc n + m ≡ suc (n + m) = omega arith in
    let d : v / 2 ^ m / 2 ^ n ≡ v / 2 ^ (n + m) =
      div-div-eq-div-mul v (2 ^ m) (2 ^ n)
      ∙ ap (λ (t : ℕ). v / t) (mul_comm (2 ^ m) (2 ^ n) ∙ sym (pow_add n m)) in
    ap (λ k. bits k v) e ∙ ap₂ (λ (x : ℕ) l. x % 2 ∷ l) (sym d) (bits-append n m v)

-- One digit: adding a multiple of a higher power changes nothing.
digit_add : (i k q c : ℕ) → i < k → (c + q * 2 ^ k) / 2 ^ i % 2 ≡ c / 2 ^ i % 2
digit_add i k q c h =
    let j : ℕ = k - suc i in
    let e : k ≡ suc j + i = omega arith in
    let split : q * 2 ^ k ≡ q * 2 ^ j * 2 * 2 ^ i =
      ap (λ (t : ℕ). q * 2 ^ t) e
      ∙ ap (λ (t : ℕ). q * t) (pow_add (suc j) i ∙ ap (λ (t : ℕ). t * 2 ^ i) (pow-suc 2 j))
      ∙ omega arith in
    ap (λ (t : ℕ). (c + t) / 2 ^ i % 2) split
    ∙ ap (λ (t : ℕ). t % 2) (add-mul-div_right c (q * 2 ^ j * 2) (pow_pos i))
    ∙ add-mul-mod_self_right (c / 2 ^ i) (q * 2 ^ j) 2

bits_add_high : (n k q c : ℕ) → n ≤ k → bits n (c + q * 2 ^ k) ≡ bits n c
unfolding bits
bits_add_high zero k q c h = refl
bits_add_high (suc n) k q c h =
    ap₂ (λ x l. x ∷ l) (digit_add n k q c h) (bits_add_high n k q c (omega arith))

-- Digits below `k` do not see a remainder modulo `2 ^ k`.
pub bits-mod : (n k v : ℕ) → n ≤ k → bits n (v % 2 ^ k) ≡ bits n v
bits-mod n k v h =
    sym (bits_add_high n k (v / 2 ^ k) (v % 2 ^ k) h)
    ∙ ap (bits n) (omega (arith, div-add-mod' v (2 ^ k)))

-- A number below `2 ^ m` stands in the low digits.
pub bits_join : (n m q c : ℕ) → c < 2 ^ m → bits (n + m) (q * 2 ^ m + c) ≡ bits n q ++ bits m c
bits_join n m q c h =
    let sum : q * 2 ^ m + c ≡ c + q * 2 ^ m = omega arith in
    let high : (c + q * 2 ^ m) / 2 ^ m ≡ q =
      add-mul-div_right c q (pow_pos m) ∙ omega (arith, div-eq_of_lt h) in
    ap (bits (n + m)) sum
    ∙ bits-append n m (c + q * 2 ^ m)
    ∙ ap₂ ◌++◌ (ap (bits n) high) (bits_add_high m m q c (omega arith))

-- A common factor comes out of a remainder.
scale-mod : (a b m : ℕ) → 1 ≤ b → 1 ≤ m → a * m % (b * m) ≡ a % b * m
scale-mod a b m hb hm =
    let split : a % b * m + a / b * (b * m) ≡ a * m =
      omega (arith, ap (λ (t : ℕ). t * m) (div-add-mod' a b)) in
    let small : a % b * m < b * m = grind (arith, mod-lt a hb) in
    ap (λ (t : ℕ). t % (b * m)) (sym split)
    ∙ add-mul-mod_self_right (a % b * m) (a / b) (b * m)
    ∙ mod-eq_of_lt small

-- A shift in a buffer of `w` bits, as a multiple of the power.
pub shift_wraps : (w l v : ℕ) → l ≤ w → v * 2 ^ l % 2 ^ w ≡ v % 2 ^ (w - l) * 2 ^ l
shift_wraps w l v h =
    let e : w ≡ w - l + l = omega arith in
    ap (λ (k : ℕ). v * 2 ^ l % 2 ^ k) e
    ∙ ap (λ (t : ℕ). v * 2 ^ l % t) (pow_add (w - l) l)
    ∙ scale-mod v (2 ^ (w - l)) (2 ^ l) (pow_pos (w - l)) (pow_pos l)

pub bits_ones : (n : ℕ) → bits n (2 ^ n - 1) ≡ replicate n 1
unfolding bits
bits_ones zero = refl
bits_ones (suc n) =
    let p : 2 ^ suc n ≡ 2 ^ n * 2 = pow-suc 2 n in
    let o = pow_pos n in
    let e : 2 ^ suc n - 1 ≡ 2 ^ n - 1 + 1 * 2 ^ n = omega arith in
    let top : (2 ^ n - 1 + 1 * 2 ^ n) / 2 ^ n ≡ 1 =
      add-mul-div_right (2 ^ n - 1) 1 (pow_pos n)
      ∙ ap (λ (t : ℕ). t + 1) (div-eq_of_lt {n = 2 ^ n - 1} {m = 2 ^ n} (omega arith)) in
    ap (bits (suc n)) e
    ∙ ap₂ (λ (x : ℕ) l. x % 2 ∷ l) top (bits_add_high n n 1 (2 ^ n - 1) (omega arith) ∙ bits_ones n)
