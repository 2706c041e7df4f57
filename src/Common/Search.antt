-- ===== src/Common/Search.antt =====
-- Lists searched by a Boolean test: `any`, `position`, `remove`, `filter`.
use blasthttp.Common.{
  ℕ, zero, suc, ◌≡◌, refl, sym, ap, ◌∙◌, Bool, true, false, if◌then◌else◌, ◌||◌, Bool-cases, inl,
  inr, Option, none, some, some_inj, Option-cases, List, [], ◌∷◌, ◌++◌, length, All,
}

module _ {ℓ} {A : Type ℓ} where
  abbrev pub any : (A → Bool) → List A → Bool
  any p [] = false
  any p (x ∷ xs) = p x || any p xs

  unfoldable pub position : (A → Bool) → List A → Option ℕ
  position p [] = none
  position p (x ∷ xs) =
      if p x then some 0 else elim (position p xs) [ none ↦ none | some i ↦ some (suc i) ]

  -- `Vec::remove`, in range
  abbrev pub remove : List A → ℕ → List A
  remove [] i = []
  remove (x ∷ xs) zero = xs
  remove (x ∷ xs) (suc i) = x ∷ remove xs i

  unfoldable pub filter : (A → Bool) → List A → List A
  filter p [] = []
  filter p (x ∷ xs) = let rest = filter p xs in if p x then x ∷ rest else rest

  -- The list around the first element that passes.
  pub record Found (p : A → Bool) (xs : List A) (i : ℕ) : Type ℓ where
    pub front : List A
    pub found : A
    pub back : List A
    pub split : xs ≡ front ++ (found ∷ back)
    pub at : length front ≡ i
    pub passes : p found ≡ true
    pub first : All (λ x. p x ≡ false) front

module _ {ℓ} {A : Type ℓ} where
  pub position-none :
      (p : A → Bool) (xs : List A) → position p xs ≡ none → All (λ x. p x ≡ false) xs
  unfolding position
  position-none p [] h = tt
  position-none p (x ∷ xs) h = elim (Bool-cases (p x)) [
    | inl e ↦ let no : some 0 ≡ none = rw e at h in absurd cc
    | inr e ↦ elim (Option-cases (position p xs)) [
      | inl n ↦ (e, position-none p xs n)
      | inr (i, s) ↦ let no : some (suc i) ≡ none = rw (e, s) at h in absurd cc
    ]
  ]

  pub position-Found : (p : A → Bool) (xs : List A) (i : ℕ) → position p xs ≡ some i → Found p xs i
  unfolding position
  position-Found p [] i h = absurd cc
  position-Found p (x ∷ xs) i h = elim (Bool-cases (p x)) [
    | inl e ↦ record {
      front = [];
      found = x;
      back = xs;
      split = refl;
      at = some_inj (rw e at h);
      passes = e;
      first = tt;
    }
    | inr e ↦ elim (Option-cases (position p xs)) [
      | inl n ↦ let no : ◌≡◌ {A = Option ℕ} none (some i) = rw (e, n) at h in absurd cc
      | inr (j, s) ↦
          let f = position-Found p xs j s in
          record {
            front = x ∷ f.front;
            found = f.found;
            back = f.back;
            split = ap (λ t. x ∷ t) f.split;
            at = ap suc f.at ∙ some_inj (rw (e, s) at h);
            passes = f.passes;
            first = (e, f.first);
          }
    ]
  ]

  pub remove-middle :
      (front : List A) (x : A) (back : List A) (i : ℕ)
      → length front ≡ i
      → remove (front ++ (x ∷ back)) i ≡ front ++ back
  remove-middle [] x back i e = ap (λ j. remove (x ∷ back) j) (sym e)
  remove-middle (y ∷ front) x back i e =
      ap (λ j. remove (y ∷ (front ++ (x ∷ back))) j) (sym e)
      ∙ ap (λ t. y ∷ t) (remove-middle front x back (length front) refl)

module _ {ℓ κ} {A : Type ℓ} where
  pub All-front : (P : A → Type κ) (xs ys : List A) → All P (xs ++ ys) → All P xs
  All-front P [] ys h = tt
  All-front P (x ∷ xs) ys h = (h.0, All-front P xs ys h.1)

  pub All-back : (P : A → Type κ) (xs ys : List A) → All P (xs ++ ys) → All P ys
  All-back P [] ys h = h
  All-back P (x ∷ xs) ys h = All-back P xs ys h.1

pub All-map {ℓ κ μ} :
    {A : Type ℓ} (P : A → Type κ) (Q : A → Type μ) (f : (a : A) → P a → Q a) (xs : List A)
    → All P xs
    → All Q xs
All-map P Q f [] h = tt
All-map P Q f (x ∷ xs) h = (f x h.0, All-map P Q f xs h.1)

pub filter_passes {ℓ} :
    {A : Type ℓ} (p : A → Bool) (xs : List A) → All (λ x. p x ≡ true) (filter p xs)
unfolding filter
filter_passes p [] = tt
filter_passes p (x ∷ xs) = elim (Bool-cases (p x)) [
  | inl e ↦ rw e (e, filter_passes p xs)
  | inr e ↦ rw e (filter_passes p xs)
]
