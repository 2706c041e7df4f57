-- ===== src/Config/Address.antt =====
-- `str::parse::<IpAddr>`, as the standard library documents it, which src/config.rs and
-- src/cookies.rs use.
use blasthttp.Common.{
  ℕ, zero, suc, ◌+◌, ◌-◌, ◌*◌, ◌/◌, ◌%◌, Bool, true, false, ◌&&◌, if◌then◌else◌, leb, ltb, ◌==◌,
  Option, none, some, List, [], ◌∷◌, ◌++◌, length, replicate,
}
use blasthttp.Common.Bytes.{Bytes}
use blasthttp.Common.Maybe.{◌>>=◌, or_else}
use blasthttp.Common.Integer.{is_digit}
use blasthttp.Config.Cidr.{IpAddr, v4, v6}

-- `char::to_digit` for the radices ten and sixteen
abbrev to_digit : ℕ → ℕ → Option ℕ
to_digit radix b =
    if is_digit b
    then some (b - b'0')
    else if radix == 16 && leb b'a' b && leb b b'f'
    then some (b - b'a' + 10)
    else if radix == 16 && leb b'A' b && leb b b'F'
    then some (b - b'A' + 10)
    else none

-- The digits in front: how many, their value, and what follows.
unfoldable pub read_digits : ℕ → ℕ → ℕ → Bytes → ℕ × ℕ × Bytes
read_digits radix count value [] = (count, value, [])
read_digits radix count value (b ∷ bs) = elim (to_digit radix b) [
  | none ↦ (count, value, b ∷ bs)
  | some d ↦ read_digits radix (suc count) (value * radix + d) bs
]

abbrev leading_zero : Bytes → Bool
leading_zero [] = false
leading_zero (b ∷ bs) = b == b'0'

-- A part of an address: its digits within their number, its value within its type.
abbrev read_octet : Bytes → Option (ℕ × Bytes)
read_octet bs =
    let (count, value, rest) = read_digits 10 0 0 bs in
    if count == 0
    then none
    else if ltb 3 count
    then none
    else if leading_zero bs && ltb 1 count
    then none
    else if ltb 255 value
    then none
    else some (value, rest)

abbrev read_group : Bytes → Option (ℕ × Bytes)
read_group bs =
    let (count, value, rest) = read_digits 16 0 0 bs in
    if count == 0 then none else if ltb 4 count then none else some (value, rest)

abbrev given : ℕ → Bytes → Option Bytes
given c [] = none
given c (b ∷ bs) = if b == c then some bs else none

-- The separator stands before every part but the first.
abbrev separator : ℕ → Bool → Bytes → Option Bytes
separator c true bs = some bs
separator c false bs = given c bs

abbrev read_ipv4 : Bytes → Option (ℕ × Bytes)
read_ipv4 bs = do
  (a, bs1) ← read_octet bs
  bs2 ← given b'.' bs1
  (b, bs3) ← read_octet bs2
  bs4 ← given b'.' bs3
  (c, bs5) ← read_octet bs4
  bs6 ← given b'.' bs5
  (d, rest) ← read_octet bs6
  some (((a * 256 + b) * 256 + c) * 256 + d, rest)

-- An address of four octets in place of the last two groups.
abbrev embedded : ℕ → Bool → Bytes → Option (ℕ × Bytes)
embedded zero first bs = none
embedded (suc left) first bs = separator b':' first bs >>= read_ipv4

-- At most `left` groups, whether an address of four octets ended them, and what follows.
unfoldable pub read_groups : ℕ → Bool → Bytes → List ℕ × Bool × Bytes
read_groups zero first bs = ([], false, bs)
read_groups (suc left) first bs = elim (embedded left first bs) [
  | some (n, rest) ↦ (n / 65536 ∷ n % 65536 ∷ [], true, rest)
  | none ↦ elim (separator b':' first bs >>= read_group) [
    | none ↦ ([], false, bs)
    | some (g, rest) ↦
        let (groups, ended, others) = read_groups left false rest in (g ∷ groups, ended, others)
  ]
]

abbrev number_of : ℕ → List ℕ → ℕ
number_of n [] = n
number_of n (g ∷ gs) = number_of (n * 65536 + g) gs

abbrev read_ipv6 : Bytes → Option (ℕ × Bytes)
read_ipv6 bs =
    let (head, ended, rest) = read_groups 8 true bs in
    if length head == 8 then some (number_of 0 head, rest) else if ended then none else do
      bs1 ← given b':' rest
      bs2 ← given b':' bs1
      let (tail, _, others) = read_groups (7 - length head) true bs2
      some (number_of 0 (head ++ (replicate (8 - length head - length tail) 0 ++ tail)), others)

abbrev whole : (ℕ → IpAddr) → Option (ℕ × Bytes) → Option IpAddr
whole family none = none
whole family (some (n, [])) = some (family n)
whole family (some (n, b ∷ bs)) = none

unfoldable pub parse_ip : Bytes → Option IpAddr
parse_ip bs = or_else (whole v4 (read_ipv4 bs)) (whole v6 (read_ipv6 bs))
