-- ===== src/Common/Integer.antt =====
-- Signed integers over the native numbers, and `str::parse::<i64>`.
use blasthttp.Common.{
  ℕ, suc, ◌+◌, ◌-◌, ◌*◌, ◌^◌, Bool, true, false, ◌&&◌, if◌then◌else◌, leb, ◌==◌, Option, none, some,
  [], ◌∷◌,
}
use blasthttp.Common.Bytes.{Bytes}

-- `negsuc n` is `- (n + 1)`.
pub data ℤ : Type 0 where
  pos negsuc : ℕ → ℤ

-- The difference of two numbers.
infixl 65 ◌⊖◌
abbrev pub ◌⊖◌ : ℕ → ℕ → ℤ
a ⊖ b = if leb b a then pos (a - b) else negsuc (b - a - 1)

infixl 65 ◌+ℤ◌
abbrev pub ◌+ℤ◌ : ℤ → ℤ → ℤ
(pos a) +ℤ (pos b) = pos (a + b)
(pos a) +ℤ (negsuc b) = a ⊖ suc b
(negsuc a) +ℤ (pos b) = b ⊖ suc a
(negsuc a) +ℤ (negsuc b) = negsuc (suc (a + b))

-- By a positive number.
abbrev pub scale : ℤ → ℕ → ℤ
scale (pos a) k = pos (a * k)
scale (negsuc a) k = 0 ⊖ (suc a * k)

-- `<=`
abbrev pub leℤ : ℤ → ℤ → Bool
leℤ (pos a) (pos b) = leb a b
leℤ (pos a) (negsuc b) = false
leℤ (negsuc a) (pos b) = true
leℤ (negsuc a) (negsuc b) = leb b a

abbrev pub is_digit : ℕ → Bool
is_digit b = leb b'0' b && leb b b'9'

-- The number that decimal digits write.
unfoldable pub digits : ℕ → Bytes → Option ℕ
digits n [] = some n
digits n (b ∷ bs) = elim (is_digit b) [ true ↦ digits (n * 10 + (b - b'0')) bs | false ↦ none ]

abbrev pub within : ℕ → Option ℕ → Option ℕ
within bound none = none
within bound (some n) = if leb n bound then some n else none

-- The digits of an unsigned integer up to a bound, at least one.
abbrev pub parse_digits : ℕ → Bytes → Option ℕ
parse_digits bound [] = none
parse_digits bound (b ∷ bs) = within bound (digits 0 (b ∷ bs))

abbrev pub as_pos : Option ℕ → Option ℤ
as_pos none = none
as_pos (some n) = some (pos n)

abbrev pub as_neg : Option ℕ → Option ℤ
as_neg none = none
as_neg (some n) = some (0 ⊖ n)

-- A sign, then digits; a number out of range is an error.
abbrev pub parse_i64 : Bytes → Option ℤ
parse_i64 [] = none
parse_i64 (b ∷ bs) =
    if b == b'+'
    then as_pos (parse_digits (2 ^ 63 - 1) bs)
    else if b == b'-'
    then as_neg (parse_digits (2 ^ 63) bs)
    else as_pos (parse_digits (2 ^ 63 - 1) (b ∷ bs))

-- An unsigned integer up to a bound; one plus sign may stand before it.
abbrev pub parse_unsigned : ℕ → Bytes → Option ℕ
parse_unsigned bound [] = none
parse_unsigned bound (b ∷ bs) =
    if b == b'+' then parse_digits bound bs else parse_digits bound (b ∷ bs)
