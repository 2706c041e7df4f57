-- ===== src/Config/Cidr.antt =====
-- `ip_in_cidr` of src/config.rs, and its masks as shifts.
use blasthttp.Common.{
  ℕ, ◌+◌, ◌*◌, ◌/◌, ◌%◌, ◌^◌, ◌-◌, ◌≤◌, ◌<◌, ◌≡◌, ◌↔◌, inl, inr, Bool-cases, refl, sym, ap, ◌∙◌,
  Bool, true, false, if◌then◌else◌, ltb, ltb→lt, ◌==◌, ==_iff, bit_and, arith,
}
use native.Mathlib.Nat.{
  add-mul-mod_self_right, mod-eq_of_lt, div-lt_iff_lt-mul, div-eq_of_lt, eq_of_mul-eq-mul_right,
}
use blasthttp.Common.Digits.{pow_add, pow_pos, shift_wraps}
use blasthttp.Common.Bits.{bit_and_mask, bit_and_high}

-- An address as the number of its bits.
pub data IpAddr : Type 0 where
  v4 v6 : ℕ → IpAddr

-- `MAX << (width - prefix_len)` in a word of `width` bits
abbrev pub mask : ℕ → ℕ → ℕ
mask width prefix_len = (2 ^ width - 1) * 2 ^ (width - prefix_len) % 2 ^ width

-- The two families of addresses share this code, at 32 and at 128 bits.
unfoldable pub same_network : ℕ → ℕ → ℕ → ℕ → Bool
same_network width ip net prefix_len =
    if ltb width prefix_len
    then false
    else if prefix_len == 0
    then true
    else bit_and ip (mask width prefix_len) == bit_and net (mask width prefix_len)

unfoldable pub ip_in_cidr : IpAddr → IpAddr → ℕ → Bool
ip_in_cidr (v4 ip) (v4 net) prefix_len = same_network 32 ip net prefix_len
ip_in_cidr (v6 ip) (v6 net) prefix_len = same_network 128 ip net prefix_len
ip_in_cidr _ _ prefix_len = false

-- The mask has `p` ones on top of zeros.
mask_lem : (width p : ℕ) → p ≤ width → mask width p ≡ (2 ^ p - 1) * 2 ^ (width - p)
mask_lem width p h =
    let k : ℕ = width - p in
    let back : width - k ≡ p = omega arith in
    let whole : 2 ^ width ≡ 2 ^ k * 2 ^ p = ap (λ (w : ℕ). 2 ^ w) (omega arith) ∙ pow_add k p in
    let split : 2 ^ width - 1 ≡ (2 ^ p - 1) + (2 ^ k - 1) * 2 ^ p =
      let step : 2 ^ k ≡ (2 ^ k - 1) + 1 = omega (arith, pow_pos k) in
      omega (arith, whole, pow_pos p, ap (λ (t : ℕ). t * 2 ^ p) step) in
    let low : (2 ^ width - 1) % 2 ^ p ≡ 2 ^ p - 1 =
      ap (λ (t : ℕ). t % 2 ^ p) split
      ∙ add-mul-mod_self_right (2 ^ p - 1) (2 ^ k - 1) (2 ^ p)
      ∙ mod-eq_of_lt (omega (arith, pow_pos p)) in
    shift_wraps width k (2 ^ width - 1) (omega arith)
    ∙ ap (λ (j : ℕ). (2 ^ width - 1) % 2 ^ j * 2 ^ k) back
    ∙ ap (λ (t : ℕ). t * 2 ^ k) low

masked :
    (width x p : ℕ)
    → x < 2 ^ width
    → p ≤ width
    → bit_and x (mask width p) ≡ x / 2 ^ (width - p) * 2 ^ (width - p)
masked width x p small h =
    let k : ℕ = width - p in
    let whole : 2 ^ width ≡ 2 ^ p * 2 ^ k = ap (λ (w : ℕ). 2 ^ w) (omega arith) ∙ pow_add p k in
    let fits : x / 2 ^ k < 2 ^ p =
      (div-lt_iff_lt-mul (pow_pos k)).1 (omega (arith, whole, small)) in
    ap (bit_and x) (mask_lem width p h)
    ∙ bit_and_high k x (2 ^ p - 1)
    ∙ ap (λ (t : ℕ). t * 2 ^ k) (bit_and_mask p (x / 2 ^ k) ∙ mod-eq_of_lt fits)

-- On addresses of the width, with a prefix no longer than it: two are in the same network exactly
-- when the addresses agree once the host's bits are shifted out.
same_network_iff :
    (width ip net p : ℕ)
    → ip < 2 ^ width
    → net < 2 ^ width
    → p ≤ width
    → (same_network width ip net p ≡ true) ↔ (ip / 2 ^ (width - p) ≡ net / 2 ^ (width - p))
unfolding same_network
same_network_iff width ip net p hi hn h =
    let mi = masked width ip p hi h in
    let mn = masked width net p hn h in
    let k : ℕ = width - p in
    let fits : ltb width p ≡ false = ground arith in
    elim (Bool-cases (p == 0)) [
      | inl all ↦
          let none_left : width - p ≡ width = ground arith in
          rw (fits, all, none_left) (λ _. div-eq_of_lt hi ∙ sym (div-eq_of_lt hn), λ _. refl)
      | inr some_left ↦
          rw (fits, some_left, mi, mn)
            (
              λ t.
                  eq_of_mul-eq-mul_right (2 ^ k) (pow_pos k) (ip / 2 ^ k) (net / 2 ^ k)
                    ((==_iff _ _).0 t),
              λ e. (==_iff _ _).1 (ap (λ (t : ℕ). t * 2 ^ k) e),
            )
    ]

abbrev pub IsAddress : IpAddr → Type 0
IsAddress (v4 ip) = ip < 2 ^ 32
IsAddress (v6 ip) = ip < 2 ^ 128

-- The meaning of `net/p`: the first `p` bits agree, in one family.
abbrev pub IsIn : IpAddr → IpAddr → ℕ → Type 0
IsIn (v4 ip) (v4 net) p = (p ≤ 32) × (ip / 2 ^ (32 - p) ≡ net / 2 ^ (32 - p))
IsIn (v6 ip) (v6 net) p = (p ≤ 128) × (ip / 2 ^ (128 - p) ≡ net / 2 ^ (128 - p))
IsIn _ _ p = ⊥

same_network-IsIn :
    (width ip net p : ℕ)
    → ip < 2 ^ width
    → net < 2 ^ width
    → (same_network width ip net p ≡ true)
      ↔ ((p ≤ width) × (ip / 2 ^ (width - p) ≡ net / 2 ^ (width - p)))
unfolding same_network
same_network-IsIn width ip net p hi hn = elim (Bool-cases (ltb width p)) [
  | inl long ↦ (λ t. absurd (bad long t), λ e. absurd (omega (arith, ltb→lt width p long, e.0)))
  | inr fits ↦
      let h : p ≤ width = ground arith in
      (
        λ t. (h, (same_network_iff width ip net p hi hn h).0 t),
        λ e. (same_network_iff width ip net p hi hn h).1 e.1,
      )
]
  where
    bad : ltb width p ≡ true → same_network width ip net p ≡ true → ⊥
    bad long t = ground arith

-- An address is in a network exactly when both are of one family, the prefix is no longer than the
-- family's addresses, and the first bits, as many as the prefix says, agree.
ip_in_cidr_iff :
    (ip net : IpAddr) (prefix_len : ℕ)
    → IsAddress ip
    → IsAddress net
    → (ip_in_cidr ip net prefix_len ≡ true) ↔ IsIn ip net prefix_len
unfolding ip_in_cidr
ip_in_cidr_iff (v4 ip) (v4 net) p hi hn = same_network-IsIn 32 ip net p hi hn
ip_in_cidr_iff (v6 ip) (v6 net) p hi hn = same_network-IsIn 128 ip net p hi hn
ip_in_cidr_iff (v4 ip) (v6 net) p hi hn = (λ t. absurd cc, λ e. absurd e)
ip_in_cidr_iff (v6 ip) (v4 net) p hi hn = (λ t. absurd cc, λ e. absurd e)
