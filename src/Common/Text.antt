-- ===== src/Common/Text.antt =====
-- What the source uses of `str`, on the bytes of ASCII text.
use blasthttp.Common.{
  ℕ, zero, suc, ◌+◌, ◌-◌, ◌≡◌, ◌↔◌, refl, sym, ap, ◌∙◌, Bool, true, false, ◌&&◌, ◌||◌, both_true,
  if◌then◌else◌, leb, ◌==◌, ==_iff, Option, none, some, List, [], ◌∷◌, ◌++◌, map, length, take,
  drop, get_elem?, take-append-drop, drop-length-append, length-append, arith,
}
use blasthttp.Common.Bytes.{Bytes}

-- `==` on strings
unfoldable pub same : Bytes → Bytes → Bool
same [] [] = true
same (x ∷ xs) (y ∷ ys) = (x == y) && same xs ys
same _ _ = false

pub same_refl : (xs : Bytes) → same xs xs ≡ true
unfolding same
same_refl [] = refl
same_refl (x ∷ xs) = rw ((==_iff x x).1 refl) (same_refl xs)

pub same→eq : (xs ys : Bytes) → same xs ys ≡ true → xs ≡ ys
unfolding same
same→eq [] [] h = refl
same→eq [] (y ∷ ys) h = absurd cc
same→eq (x ∷ xs) [] h = absurd cc
same→eq (x ∷ xs) (y ∷ ys) h = ground (arith, same→eq xs ys)

pub same_iff : (xs ys : Bytes) → (same xs ys ≡ true) ↔ (xs ≡ ys)
same_iff xs ys = (same→eq xs ys, λ e. ap (λ z. same xs z) (sym e) ∙ same_refl xs)

-- `is_empty`
abbrev pub is_nil {ℓ} : {A : Type ℓ} → List A → Bool
is_nil [] = true
is_nil _ = false

unfoldable pub starts_with : Bytes → Bytes → Bool
starts_with xs [] = true
starts_with [] (p ∷ ps) = false
starts_with (x ∷ xs) (p ∷ ps) = (x == p) && starts_with xs ps

unfoldable pub ends_with : Bytes → Bytes → Bool
ends_with xs suffix =
    leb (length suffix) (length xs) && same (drop (length xs - length suffix) xs) suffix

abbrev pub strip_prefix : Bytes → Bytes → Option Bytes
strip_prefix xs p = if starts_with xs p then some (drop (length p) xs) else none

abbrev pub strip_suffix : Bytes → Bytes → Option Bytes
strip_suffix xs s = if ends_with xs s then some (take (length xs - length s) xs) else none

-- `trim_start_matches` and `trim_end_matches`, with a test of a byte
unfoldable pub trim_start_matches : (ℕ → Bool) → Bytes → Bytes
trim_start_matches p [] = []
trim_start_matches p (x ∷ xs) = let rest = trim_start_matches p xs in if p x then rest else x ∷ xs

unfoldable pub trim_end_matches : (ℕ → Bool) → Bytes → Bytes
trim_end_matches p [] = []
trim_end_matches p (x ∷ xs) =
    let rest = trim_end_matches p xs in if p x && is_nil rest then [] else x ∷ rest

abbrev pub is_space : ℕ → Bool
is_space b = b == 32 || (leb 9 b && leb b 13)

abbrev pub trim : Bytes → Bytes
trim xs = trim_end_matches is_space (trim_start_matches is_space xs)

-- `split_once` and `split` at a byte
unfoldable pub split_once : ℕ → Bytes → Option (Bytes × Bytes)
split_once c [] = none
split_once c (x ∷ xs) =
    if x == c
    then some ([], xs)
    else elim (split_once c xs) [ none ↦ none | some (front, tail) ↦ some (x ∷ front, tail) ]

-- At least one piece.
unfoldable pub split_first : ℕ → Bytes → Bytes × List Bytes
split_first c [] = ([], [])
split_first c (x ∷ xs) =
    let (first, others) = split_first c xs in
    if x == c then ([], first ∷ others) else (x ∷ first, others)

abbrev pub split : ℕ → Bytes → List Bytes
split c xs = let (first, others) = split_first c xs in first ∷ others

-- `split_whitespace`
abbrev pub non_empty : List Bytes → List Bytes
non_empty [] = []
non_empty ([] ∷ ps) = non_empty ps
non_empty ((x ∷ p) ∷ ps) = (x ∷ p) ∷ non_empty ps

abbrev pub space_for : ℕ → ℕ
space_for b = if is_space b then 32 else b

abbrev pub split_whitespace : Bytes → List Bytes
split_whitespace xs = non_empty (split 32 (map space_for xs))

-- `contains` of a byte
abbrev pub contains : ℕ → Bytes → Bool
contains c [] = false
contains c (x ∷ xs) = x == c || contains c xs

-- `join`
unfoldable pub join : Bytes → List Bytes → Bytes
join sep [] = []
join sep (p ∷ []) = p
join sep (p ∷ (q ∷ ps)) = p ++ (sep ++ join sep (q ∷ ps))

-- Whether a byte is there and is the given one.
abbrev pub byte_is : ℕ → Option ℕ → Bool
byte_is c none = false
byte_is c (some b) = b == c

-- Such a byte splits the text.
pub split_at_byte :
    (c : ℕ) (l : Bytes) (i : ℕ)
    → byte_is c (get_elem? l i) ≡ true
    → l ≡ take i l ++ (c ∷ drop (suc i) l)
split_at_byte c [] i h = absurd cc
split_at_byte c (x ∷ l) zero h = ap (λ y. y ∷ l) ((==_iff x c).0 h)
split_at_byte c (x ∷ l) (suc i) h = ap (λ r. x ∷ r) (split_at_byte c l i h)

pub byte_at :
    (c : ℕ) (front tail : Bytes) → byte_is c (get_elem? (front ++ (c ∷ tail)) (length front)) ≡ true
byte_at c [] tail = (==_iff c c).1 refl
byte_at c (x ∷ front) tail = byte_at c front tail

pub behind_byte :
    (c : ℕ) (front tail : Bytes) → drop (suc (length front)) (front ++ (c ∷ tail)) ≡ tail
behind_byte c [] tail = refl
behind_byte c (x ∷ front) tail = behind_byte c front tail

pub starts_with_iff :
    (xs p : Bytes) → (starts_with xs p ≡ true) ↔ ((rest : Bytes) × (xs ≡ p ++ rest))
unfolding starts_with
starts_with_iff xs [] = (λ _. (xs, refl), λ _. refl)
starts_with_iff [] (c ∷ p) = (λ h. absurd cc, λ (rest, e). absurd cc)
starts_with_iff (x ∷ xs) (c ∷ p) = (
  λ h.
      let (first, others) = both_true _ _ h in
      let (rest, e) = (starts_with_iff xs p).0 others in
      (rest, ap (λ y. y ∷ xs) ((==_iff x c).0 first) ∙ ap (λ r. c ∷ r) e),
  λ (rest, e).
      let first : x ≡ c = cc in
      let others : xs ≡ p ++ rest = cc in
      rw ((==_iff x c).1 first) ((starts_with_iff xs p).1 (rest, others)),
)

pub ends_with_iff : (xs s : Bytes) → (ends_with xs s ≡ true) ↔ ((front : Bytes) × (xs ≡ front ++ s))
unfolding ends_with
ends_with_iff xs s = (
  λ h.
      let (_, e) = both_true _ _ h in
      let n = length xs - length s in
      (take n xs, sym (take-append-drop n xs) ∙ ap (λ t. take n xs ++ t) ((same_iff _ _).0 e)),
  λ (front, e).
      let len : length xs ≡ length front + length s = ap length e ∙ length-append front s in
      let fits : leb (length s) (length xs) ≡ true = ground arith in
      let n : length xs - length s ≡ length front = omega arith in
      let tail : drop (length xs - length s) xs ≡ s =
        ap (λ k. drop k xs) n ∙ ap (drop (length front)) e ∙ drop-length-append front s in
      rw (fits, tail) (same_refl s),
)
