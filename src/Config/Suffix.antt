-- ===== src/Config/Suffix.antt =====
-- `host_matches_suffix` of src/config.rs, on bytes.
use blasthttp.Common.{
  ℕ, suc, ◌+◌, ◌-◌, ◌≡◌, ◌↔◌, ◌⊎◌, inl, inr, refl, sym, ap, ◌∙◌, Bool, true, false, ◌&&◌,
  if◌then◌else◌, leb, leb→le, ◌==◌, ==_iff, Bool-cases, both_true, Option, [], ◌∷◌, ◌++◌, map,
  length, length-append, take, drop, get_elem?, arith,
}
use blasthttp.Common.Bytes.{Bytes}
use blasthttp.Common.Text.{byte_is, split_at_byte, byte_at, behind_byte}

unfoldable pub to_lower : ℕ → ℕ
to_lower b = if leb 65 b && leb b 90 then b + 32 else b

-- `eq_ignore_ascii_case` on slices
unfoldable pub eq_ignore_case : Bytes → Bytes → Bool
eq_ignore_case [] [] = true
eq_ignore_case (x ∷ xs) (y ∷ ys) = (to_lower x == to_lower y) && eq_ignore_case xs ys
eq_ignore_case _ _ = false

abbrev pub is_dot : Option ℕ → Bool
is_dot = byte_is b'.'

-- `checked_sub` answers when the suffix is no longer than the host.
unfoldable pub host_matches_suffix : Bytes → Bytes → Bool
host_matches_suffix host suffix =
    let start = length host - length suffix in
    if length host == length suffix
    then eq_ignore_case host suffix
    else if leb (length suffix) (length host) && leb 1 start && is_dot (get_elem? host (start - 1))
    then eq_ignore_case (drop start host) suffix
    else false

-- The host without regard to case.
abbrev pub lower : Bytes → Bytes
lower = map to_lower

eq_ignore_case_iff : (xs ys : Bytes) → (eq_ignore_case xs ys ≡ true) ↔ (lower xs ≡ lower ys)
unfolding eq_ignore_case
eq_ignore_case_iff [] [] = (λ _. refl, λ _. refl)
eq_ignore_case_iff [] (y ∷ ys) = (λ h. absurd cc, λ h. absurd cc)
eq_ignore_case_iff (x ∷ xs) [] = (λ h. absurd cc, λ h. absurd cc)
eq_ignore_case_iff (x ∷ xs) (y ∷ ys) =
    let (to, from) = eq_ignore_case_iff xs ys in
    (
      λ h.
          let (first, others) = both_true _ _ h in
          ap (λ c. c ∷ lower xs) ((==_iff _ _).0 first) ∙ ap (λ r. to_lower y ∷ r) (to others),
      λ h.
          let first : to_lower x ≡ to_lower y = cc in
          let others : lower xs ≡ lower ys = cc in rw ((==_iff _ _).1 first, from others) refl,
    )

length-map : (f : ℕ → ℕ) (xs : Bytes) → length (map f xs) ≡ length xs
length-map f [] = refl
length-map f (x ∷ xs) = ap suc (length-map f xs)

abbrev EndsIn : Bytes → Bytes → Type 0
EndsIn host suffix =
    (front : Bytes) × (tail : Bytes) × (host ≡ front ++ (b'.' ∷ tail)) × (lower tail ≡ lower suffix)

same_length : (xs ys : Bytes) → lower xs ≡ lower ys → length xs ≡ length ys
same_length xs ys e = sym (length-map to_lower xs) ∙ ap length e ∙ length-map to_lower ys

ends_in :
    (host suffix : Bytes)
    → host_matches_suffix host suffix ≡ true
    → (lower host ≡ lower suffix) ⊎ EndsIn host suffix
unfolding host_matches_suffix
ends_in host suffix h =
    let start : ℕ = length host - length suffix in
    let guard : Bool =
      leb (length suffix) (length host) && leb 1 start && is_dot (get_elem? host (start - 1)) in
    elim (Bool-cases (length host == length suffix)) [
      | inl whole ↦ inl ((eq_ignore_case_iff host suffix).0 (rw whole at h))
      | inr longer ↦ elim (Bool-cases guard) [
        | inr fails ↦ let no : false ≡ true = rw (longer, fails) at h in absurd cc
        | inl holds ↦
            let (room, dot) = both_true _ _ holds in
            let (_, some_left) = both_true _ _ room in
            let place : suc (start - 1) ≡ start = omega (arith, leb→le 1 start some_left) in
            let tail : Bytes = drop (suc (start - 1)) host in
            let ends : eq_ignore_case (drop start host) suffix ≡ true = rw (longer, holds) at h in
            inr (
              take (start - 1) host,
              tail,
              split_at_byte b'.' host (start - 1) dot,
              (eq_ignore_case_iff tail suffix).0
                  (ap (λ k. eq_ignore_case (drop k host) suffix) place ∙ ends),
            )
      ]
    ]

matches :
    (host suffix front tail : Bytes)
    → host ≡ front ++ (b'.' ∷ tail)
    → lower tail ≡ lower suffix
    → host_matches_suffix host suffix ≡ true
unfolding host_matches_suffix
matches host suffix front tail same e =
    let same_tail : length tail ≡ length suffix = same_length tail suffix e in
    let len : length host ≡ length front + suc (length tail) =
      ap length same ∙ length-append front (b'.' ∷ tail) in
    let longer : (length host == length suffix) ≡ false = ground arith in
    let fits : leb (length suffix) (length host) ≡ true = ground arith in
    let some_left : leb 1 (length host - length suffix) ≡ true = ground arith in
    let place : length host - length suffix ≡ suc (length front) = omega arith in
    let before : length host - length suffix - 1 ≡ length front = omega arith in
    let dot : is_dot (get_elem? host (length host - length suffix - 1)) ≡ true =
      ap (λ i. is_dot (get_elem? host i)) before
      ∙ ap (λ l. is_dot (get_elem? l (length front))) same
      ∙ byte_at b'.' front tail in
    let rest : drop (length host - length suffix) host ≡ tail =
      ap (λ i. drop i host) place
      ∙ ap (drop (suc (length front))) same
      ∙ behind_byte b'.' front tail in
    rw (longer, fits, some_left, dot, rest) ((eq_ignore_case_iff tail suffix).1 e)

-- A host matches a suffix exactly when, without regard to case, it is the suffix or ends in a dot and
-- the suffix.
host_matches_suffix_iff :
    (host suffix : Bytes)
    → (host_matches_suffix host suffix ≡ true) ↔ (
        (lower host ≡ lower suffix)
        ⊎ ((front : Bytes) × (tail : Bytes) × (host ≡ front ++ (b'.' ∷ tail))
            × (lower tail ≡ lower suffix)))
unfolding host_matches_suffix
host_matches_suffix_iff host suffix = (
  ends_in host suffix,
  elim [
    | inl e ↦
        let whole : (length host == length suffix) ≡ true =
          (==_iff _ _).1 (same_length host suffix e) in
        rw whole ((eq_ignore_case_iff host suffix).1 e)
    | inr (front, tail, same, e) ↦ matches host suffix front tail same e
  ],
)
