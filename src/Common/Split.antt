-- ===== src/Common/Split.antt =====
-- `rsplit_once` at a byte and `split_once` at a text, and where the splits of `Text` fall.
use blasthttp.Common.{
  ◌∙◌, inr, inl, some_inj, Option-cases, Bool-cases, ◌⊎◌, ℕ, ◌≡◌, refl, ap, true, false, both_false,
  if◌then◌else◌, ◌==◌, ==_iff, Option, none, some, [], ◌∷◌, ◌++◌, length, drop, drop-length-append,
}
use blasthttp.Common.Bytes.{Bytes}
use blasthttp.Common.Text.{contains, split_once, split_first, split, starts_with, starts_with_iff}
use mathlib.Core.Path.{subst}

unfoldable pub rsplit_once : ℕ → Bytes → Option (Bytes × Bytes)
rsplit_once c [] = none
rsplit_once c (x ∷ xs) = elim (rsplit_once c xs) [
  | some (front, tail) ↦ some (x ∷ front, tail)
  | none ↦ if x == c then some ([], xs) else none
]

unfoldable pub split_at_text : Bytes → Bytes → Option (Bytes × Bytes)
split_at_text sep [] = none
split_at_text sep (x ∷ xs) =
    if starts_with (x ∷ xs) sep
    then some ([], drop (length sep) (x ∷ xs))
    else elim (split_at_text sep xs) [ none ↦ none | some (front, tail) ↦ some (x ∷ front, tail) ]

pub contains_not :
    (c x : ℕ) (xs : Bytes)
    → contains c (x ∷ xs) ≡ false
    → ((x == c) ≡ false) × (contains c xs ≡ false)
contains_not c x xs h = both_false (x == c) (contains c xs) h

pub contains-append :
    (c : ℕ) (xs ys : Bytes)
    → contains c xs ≡ false
    → contains c ys ≡ false
    → contains c (xs ++ ys) ≡ false
contains-append c [] ys hx hy = hy
contains-append c (x ∷ xs) ys hx hy =
    let (first, others) = contains_not c x xs hx in rw first (contains-append c xs ys others hy)

pub split_once-none : (c : ℕ) (xs : Bytes) → contains c xs ≡ false → split_once c xs ≡ none
unfolding split_once
split_once-none c [] h = refl
split_once-none c (x ∷ xs) h =
    let (first, others) = contains_not c x xs h in rw (first, split_once-none c xs others) refl

pub split_once-append :
    (c : ℕ) (front tail : Bytes)
    → contains c front ≡ false
    → split_once c (front ++ (c ∷ tail)) ≡ some (front, tail)
unfolding split_once
split_once-append c [] tail h = rw ((==_iff c c).1 refl) refl
split_once-append c (x ∷ front) tail h =
    let (first, others) = contains_not c x front h in
    rw (first, split_once-append c front tail others) refl

pub split_first-whole : (c : ℕ) (xs : Bytes) → contains c xs ≡ false → split_first c xs ≡ (xs, [])
unfolding split_first
split_first-whole c [] h = refl
split_first-whole c (x ∷ xs) h =
    let (first, others) = contains_not c x xs h in rw (first, split_first-whole c xs others) refl

pub split_first-cons :
    (c : ℕ) (front tail : Bytes)
    → contains c front ≡ false
    → split_first c (front ++ (c ∷ tail)) ≡ (front, split c tail)
unfolding split_first
split_first-cons c [] tail h = rw ((==_iff c c).1 refl) refl
split_first-cons c (x ∷ front) tail h =
    let (first, others) = contains_not c x front h in
    rw first (ap (λ r. (x ∷ r.0, r.1)) (split_first-cons c front tail others))

pub split_first-append :
    (c : ℕ) (front tail : Bytes)
    → contains c front ≡ false
    → (split_first c (front ++ (c ∷ tail))).0 ≡ front
split_first-append c front tail h = ap (λ r. r.0) (split_first-cons c front tail h)

rsplit_once-none : (c : ℕ) (xs : Bytes) → contains c xs ≡ false → rsplit_once c xs ≡ none
unfolding rsplit_once
rsplit_once-none c [] h = refl
rsplit_once-none c (x ∷ xs) h =
    let (first, others) = contains_not c x xs h in rw (rsplit_once-none c xs others, first) refl

pub rsplit_once-append :
    (c : ℕ) (front tail : Bytes)
    → contains c tail ≡ false
    → rsplit_once c (front ++ (c ∷ tail)) ≡ some (front, tail)
unfolding rsplit_once
rsplit_once-append c [] tail h = rw (rsplit_once-none c tail h, (==_iff c c).1 refl) refl
rsplit_once-append c (x ∷ front) tail h = rw (rsplit_once-append c front tail h) refl

pub starts_with-append : (p rest : Bytes) → starts_with (p ++ rest) p ≡ true
starts_with-append p rest = (starts_with_iff (p ++ rest) p).1 (rest, refl)

-- The text stands where its first byte first does.
pub split_at_text-append :
    (c : ℕ) (sep front tail : Bytes)
    → contains c front ≡ false
    → split_at_text (c ∷ sep) (front ++ ((c ∷ sep) ++ tail)) ≡ some (front, tail)
unfolding split_at_text starts_with
split_at_text-append c sep [] tail h =
    rw (starts_with-append (c ∷ sep) tail, drop-length-append (c ∷ sep) tail) refl
split_at_text-append c sep (x ∷ front) tail h =
    let (first, others) = contains_not c x front h in
    rw (first, split_at_text-append c sep front tail others) refl

-- The parts of a text that was split at a byte.
pub split_once_parts :
    (c : ℕ) (xs front tail : Bytes)
    → split_once c xs ≡ some (front, tail)
    → (xs ≡ front ++ (c ∷ tail)) × (contains c front ≡ false)
unfolding split_once
split_once_parts c [] front tail h = absurd cc
split_once_parts c (x ∷ xs) front tail h = elim (Bool-cases (x == c)) [
  | inl e ↦
      let at_once = some_inj (rw e at h) in
      let it : x ≡ c = (==_iff x c).0 e in
      let empty : [] ≡ front = ap (λ r. r.0) at_once in
      let behind : xs ≡ tail = ap (λ r. r.1) at_once in
      (
        subst (λ f. x ∷ xs ≡ f ++ (c ∷ tail)) empty (rw (it, behind) refl),
        subst (λ f. contains c f ≡ false) empty refl,
      )
  | inr e ↦ elim (Option-cases (split_once c xs)) [
    | inl n ↦ let no = rw (e, n) at h in absurd cc
    | inr ((f, t), s) ↦
        let on = some_inj (rw (e, s) at h) in
        let front_is : x ∷ f ≡ front = ap (λ r. r.0) on in
        let behind : t ≡ tail = ap (λ r. r.1) on in
        let (whole, free) = split_once_parts c xs f t s in
        (
          subst (λ g. x ∷ xs ≡ g ++ (c ∷ tail)) front_is
              (ap (λ r. x ∷ r) (whole ∙ ap (λ r. f ++ (c ∷ r)) behind)),
          subst (λ g. contains c g ≡ false) front_is (rw e free),
        )
  ]
]

pub split_first_parts :
    (c : ℕ) (xs : Bytes)
    → (contains c (split_first c xs).0 ≡ false)
      × ((xs ≡ (split_first c xs).0) ⊎ ((rest : Bytes) × (xs ≡ (split_first c xs).0 ++ (c ∷ rest))))
unfolding split_first
split_first_parts c [] = (refl, inl refl)
split_first_parts c (x ∷ xs) =
    let (free, parts) = split_first_parts c xs in
    elim (Bool-cases (x == c)) [
      | inl e ↦ rw e (refl, inr (xs, ap (λ y. y ∷ xs) ((==_iff x c).0 e)))
      | inr e ↦ rw e (
        rw e free,
        elim parts [
          | inl whole ↦ inl (ap (λ r. x ∷ r) whole)
          | inr (rest, whole) ↦ inr (rest, ap (λ r. x ∷ r) whole)
        ],
      )
    ]
