-- ===== src/Common/Bits.antt =====
-- Masks, shifts and unions of bits as arithmetic, from the digit recursion of the native operations.
use Prim.Native.Nat.{
  ℕ, zero, suc, ◌+◌, ◌*◌, ◌/◌, ◌-◌, ◌%◌, ◌^◌, ◌≤◌, ◌<◌, min, max, bit_and, bit_or, digits,
  bit_and-bitwise, bit_or-bitwise,
}
use blasthttp.Common.{all_below, all_below_sound, ◌==◌, ==_iff, Bool, true}
use mathlib.Core.Path.{◌≡◌, refl, sym, ap, ◌∙◌}
use native.Mathlib.Omega.{arith}
use native.Mathlib.Nat.{
  div-div-eq-div-mul, pow-suc, one-le-pow, div-add-mod', mul_assoc, mod-lt, mod-eq_of_lt,
  add-mul-mod_self_right,
}

-- Induction by halving.
by_halves : (P : ℕ → Type 0) (a : ℕ) → P 0 → ((x : ℕ) → 0 < x → P (x / 2) → P x) → P a
by_halves P a start double = below a a (omega arith)
  where
    below : (limit x : ℕ) → x ≤ limit → P x
    below limit zero h = start
    below zero (suc x) h = absurd (omega arith)
    below (suc limit) (suc x) h =
        double (suc x) (omega arith) (below limit (suc x / 2) (omega arith))

-- Any recursion on the digits, whatever it does at zero and on a pair of digits: more fuel than the
-- first number makes no difference.
module _ (stop : ℕ → ℕ) (op : ℕ → ℕ → ℕ) where
  at_zero : (fuel y : ℕ) → digits stop op fuel 0 y ≡ stop y
  at_zero zero y = refl
  at_zero (suc fuel) y = refl

  more_fuel :
      (used fuel x y : ℕ)
      → x ≤ used
      → used ≤ fuel
      → digits stop op fuel x y ≡ digits stop op used x y
  more_fuel used fuel zero y h k = at_zero fuel y ∙ sym (at_zero used y)
  more_fuel (suc used) (suc fuel) (suc x) y h k =
      ap (λ (d : ℕ). d * 2 + op (suc x % 2) (y % 2))
        (more_fuel used fuel (suc x / 2) (y / 2) (omega arith) (omega arith))
  more_fuel zero fuel (suc x) y h k = absurd (omega arith)
  more_fuel (suc used) zero (suc x) y h k = absurd (omega arith)

  halved : (x y : ℕ) → digits stop op x (suc x / 2) y ≡ digits stop op (suc x / 2) (suc x / 2) y
  halved x y = more_fuel (suc x / 2) x (suc x / 2) y (omega arith) (omega arith)

zero-bit_or : (y : ℕ) → bit_or 0 y ≡ y
zero-bit_or = bit_or-bitwise 0

zero-bit_and : (y : ℕ) → bit_and 0 y ≡ 0
zero-bit_and = bit_and-bitwise 0

-- The lowest digit of each operation, and the rest.
low-bit_or : (x y : ℕ) → bit_or x y ≡ bit_or (x / 2) (y / 2) * 2 + max (x % 2) (y % 2)
low-bit_or zero y = omega (zero-bit_or (y / 2), zero-bit_or y, arith)
low-bit_or (suc x) y =
    let rest = halved (λ y. y) max x (y / 2) in
    omega (rest, bit_or-bitwise (suc x / 2) (y / 2), bit_or-bitwise (suc x) y, arith)

low-bit_and : (x y : ℕ) → bit_and x y ≡ bit_and (x / 2) (y / 2) * 2 + min (x % 2) (y % 2)
low-bit_and zero y = omega (zero-bit_and (y / 2), zero-bit_and y, arith)
low-bit_and (suc x) y =
    let rest = halved (λ y. 0) min x (y / 2) in
    omega (rest, bit_and-bitwise (suc x / 2) (y / 2), bit_and-bitwise (suc x) y, arith)

bit_and-zero : (x : ℕ) → bit_and x 0 ≡ 0
bit_and-zero x =
    by_halves (λ x. bit_and x 0 ≡ 0) x refl λ x positive half. omega (low-bit_and x 0, arith)

bit_or-zero : (x : ℕ) → bit_or x 0 ≡ x
bit_or-zero x =
    by_halves (λ x. bit_or x 0 ≡ x) x refl λ x positive half. omega (low-bit_or x 0, arith)

-- A union with bits below a multiple of a power of two is the sum.
pub bit_or_low : (n q v : ℕ) → v < 2 ^ n → bit_or (q * 2 ^ n) v ≡ q * 2 ^ n + v
bit_or_low zero q v h = let z : v ≡ 0 = omega arith in rw z (bit_or-zero (q * 2 ^ 0) ∙ omega arith)
bit_or_low (suc n) q v h =
    let d : 2 ^ suc n ≡ 2 ^ n * 2 = pow-suc 2 n in
    let half : q * 2 ^ suc n / 2 ≡ q * 2 ^ n = omega (arith, ap (λ (t : ℕ). q * t) d) in
    let even : q * 2 ^ suc n % 2 ≡ 0 = omega (arith, ap (λ (t : ℕ). q * t) d) in
    omega (
      arith,
      low-bit_or (q * 2 ^ suc n) v,
      ap (λ (t : ℕ). bit_or t (v / 2)) half,
      bit_or_low n q (v / 2) (omega arith),
      ap (λ (t : ℕ). q * t) d,
    )

-- The remainder by twice `m`, from the remainder of the half.
mod-double : (a m : ℕ) → 1 ≤ m → a % (m * 2) ≡ a / 2 % m * 2 + a % 2
mod-double a m p =
    let low : ℕ = a / 2 % m * 2 + a % 2 in
    let split : low + a / 2 / m * (m * 2) ≡ a =
      omega (arith, div-add-mod' (a / 2) m, mul_assoc (a / 2 / m) m 2, div-add-mod' a 2) in
    let small : low < m * 2 = omega (arith, mod-lt (a / 2) p) in
    ap (λ (t : ℕ). t % (m * 2)) (sym split)
    ∙ add-mul-mod_self_right low (a / 2 / m) (m * 2)
    ∙ mod-eq_of_lt small

-- A mask of `n` ones keeps the remainder.
pub bit_and_mask : (n a : ℕ) → bit_and a (2 ^ n - 1) ≡ a % 2 ^ n
bit_and_mask zero a = rw (bit_and-zero a) (omega arith)
bit_and_mask (suc n) a =
    let d : 2 ^ suc n ≡ 2 ^ n * 2 = pow-suc 2 n in
    let p : 1 ≤ 2 ^ n = one-le-pow n 2 (omega arith) in
    let half : (2 ^ suc n - 1) / 2 ≡ 2 ^ n - 1 = omega arith in
    let odd : (2 ^ suc n - 1) % 2 ≡ 1 = omega arith in
    omega (
      arith,
      low-bit_and a (2 ^ suc n - 1),
      ap (λ (t : ℕ). bit_and (a / 2) t) half,
      bit_and_mask n (a / 2),
      mod-double a (2 ^ n) p,
      ap (λ (t : ℕ). a % t) d,
    )

pub bit_or_comm : (x y : ℕ) → bit_or x y ≡ bit_or y x
bit_or_comm x =
    by_halves (λ x. (y : ℕ) → bit_or x y ≡ bit_or y x) x (λ y. zero-bit_or y ∙ sym (bit_or-zero y))
      λ x positive half y. omega (half (y / 2), low-bit_or x y, low-bit_or y x, arith)

pub bit_or_high : (n q v : ℕ) → v < 2 ^ n → bit_or v (q * 2 ^ n) ≡ v + q * 2 ^ n
bit_or_high n q v h = omega (arith, bit_or_comm v (q * 2 ^ n), bit_or_low n q v h)

top_bit_ok : ℕ → Bool
top_bit_ok b = bit_and b 0x80 == b / 128 * 128

top_bit_checked : all_below 256 top_bit_ok ≡ true
unfolding all_below top_bit_ok
top_bit_checked = refl

-- The masks on one byte that keep its high bits.
pub top_bit : (b : ℕ) → b < 256 → bit_and b 0x80 ≡ b / 128 * 128
unfolding top_bit_ok
top_bit b h = (==_iff _ _).0 (all_below_sound 256 top_bit_ok b top_bit_checked h)

top_two_ok : ℕ → Bool
top_two_ok b = bit_and b 0xc0 == b / 64 * 64

top_two_checked : all_below 256 top_two_ok ≡ true
unfolding all_below top_two_ok
top_two_checked = refl

pub top_two_bits : (b : ℕ) → b < 256 → bit_and b 0xc0 ≡ b / 64 * 64
unfolding top_two_ok
top_two_bits b h = (==_iff _ _).0 (all_below_sound 256 top_two_ok b top_two_checked h)

top_three_ok : ℕ → Bool
top_three_ok b = bit_and b 0xe0 == b / 32 * 32

top_three_checked : all_below 256 top_three_ok ≡ true
unfolding all_below top_three_ok
top_three_checked = refl

pub top_three_bits : (b : ℕ) → b < 256 → bit_and b 0xe0 ≡ b / 32 * 32
unfolding top_three_ok
top_three_bits b h = (==_iff _ _).0 (all_below_sound 256 top_three_ok b top_three_checked h)

-- A mask that keeps the bits from `k` on.
pub bit_and_high : (k x m : ℕ) → bit_and x (m * 2 ^ k) ≡ bit_and (x / 2 ^ k) m * 2 ^ k
bit_and_high zero x m =
    let same : m * 2 ^ 0 ≡ m = omega arith in
    let whole : x / 2 ^ 0 ≡ x = omega arith in
    omega (arith, ap (bit_and x) same, ap (λ (t : ℕ). bit_and t m) whole)
bit_and_high (suc k) x m =
    let double : 2 ^ suc k ≡ 2 ^ k * 2 = pow-suc 2 k in
    let half : m * 2 ^ suc k / 2 ≡ m * 2 ^ k = omega (arith, ap (λ (t : ℕ). m * t) double) in
    let even : m * 2 ^ suc k % 2 ≡ 0 = omega (arith, ap (λ (t : ℕ). m * t) double) in
    let down : x / 2 / 2 ^ k ≡ x / 2 ^ suc k =
      div-div-eq-div-mul x 2 (2 ^ k) ∙ ap (λ (t : ℕ). x / t) (omega (arith, double)) in
    omega (
      arith,
      low-bit_and x (m * 2 ^ suc k),
      ap (λ (t : ℕ). bit_and (x / 2) t) half,
      bit_and_high k (x / 2) m,
      ap (λ (t : ℕ). bit_and t m * 2 ^ k) down,
      ap (λ (t : ℕ). bit_and (x / 2 ^ suc k) m * t) double,
    )
