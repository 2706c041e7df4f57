-- ===== src/Common/Trim.antt =====
-- What `trim_start_matches` and `trim_end_matches` take off a text, and what they leave.
use blasthttp.Common.{
  ℕ, ◌≡◌, refl, ap, ◌∙◌, sym, Bool, true, false, ◌&&◌, both_true, Bool-cases, inl, inr, [], ◌∷◌,
  ◌++◌, All,
}
use blasthttp.Common.Bytes.{Bytes}
use blasthttp.Common.Text.{is_nil, trim_start_matches, trim_end_matches}

pub trim_start_split :
    (p : ℕ → Bool) (xs : Bytes)
    → (front : Bytes) × (xs ≡ front ++ trim_start_matches p xs) × All (λ x. p x ≡ true) front
unfolding trim_start_matches
trim_start_split p [] = ([], refl, tt)
trim_start_split p (x ∷ xs) = elim (Bool-cases (p x)) [
  | inl e ↦
      let (front, whole, off) = trim_start_split p xs in
      rw e (x ∷ front, ap (λ t. x ∷ t) whole, (e, off))
  | inr e ↦ rw e ([], refl, tt)
]

nil_of : (xs : Bytes) → is_nil xs ≡ true → xs ≡ []
nil_of [] h = refl
nil_of (x ∷ xs) h = absurd cc

pub trim_end_split :
    (p : ℕ → Bool) (xs : Bytes)
    → (tail : Bytes) × (xs ≡ trim_end_matches p xs ++ tail) × All (λ x. p x ≡ true) tail
unfolding trim_end_matches
trim_end_split p [] = ([], refl, tt)
trim_end_split p (x ∷ xs) =
    let (tail, whole, off) = trim_end_split p xs in
    elim (Bool-cases (p x && is_nil (trim_end_matches p xs))) [
      | inl e ↦
          let (first, empty) = both_true (p x) (is_nil (trim_end_matches p xs)) e in
          let all : xs ≡ tail =
            whole ∙ ap (λ t. t ++ tail) (nil_of (trim_end_matches p xs) empty) in
          rw e (x ∷ tail, ap (λ t. x ∷ t) all, (first, off))
      | inr e ↦ rw e (tail, ap (λ t. x ∷ t) whole, off)
    ]

not_empty : (init : Bytes) (c : ℕ) → [] ≡ init ++ (c ∷ []) → ⊥
not_empty [] c h = absurd cc
not_empty (i ∷ init) c h = absurd cc

-- What is left does not end with what is taken off.
pub trim_end_last :
    (p : ℕ → Bool) (xs init : Bytes) (c : ℕ)
    → trim_end_matches p xs ≡ init ++ (c ∷ [])
    → p c ≡ false
unfolding trim_end_matches
trim_end_last p [] init c h = absurd (not_empty init c h)
trim_end_last p (x ∷ xs) [] c h = elim (Bool-cases (p x && is_nil (trim_end_matches p xs))) [
  | inl e ↦ absurd (not_empty [] c (rw e at h))
  | inr e ↦
      let left : x ∷ trim_end_matches p xs ≡ c ∷ [] = rw e at h in
      let alone : trim_end_matches p xs ≡ [] = cc in
      let it : x ≡ c = cc in
      elim (Bool-cases (p c)) [
        | inr f ↦ f
        | inl f ↦ let no : true ≡ false = sym (rw (it, alone, f) refl) ∙ e in absurd cc
      ]
]
trim_end_last p (x ∷ xs) (i ∷ init) c h =
    elim (Bool-cases (p x && is_nil (trim_end_matches p xs))) [
      | inl e ↦ absurd (not_empty (i ∷ init) c (rw e at h))
      | inr e ↦
          let left : x ∷ trim_end_matches p xs ≡ i ∷ (init ++ (c ∷ [])) = rw e at h in
          let others : trim_end_matches p xs ≡ init ++ (c ∷ []) = cc in
          trim_end_last p xs init c others
    ]
