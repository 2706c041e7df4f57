-- ===== src/Cookies/Calendar.antt =====
-- `days_from_civil` of src/cookies.rs counts the days of the Gregorian calendar.
use blasthttp.Common.{
  ℕ, zero, suc, ◌+◌, ◌%◌, ◌≤◌, ◌<◌, ◌≡◌, refl, sym, ap, ◌∙◌, Bool, true, false, not, ◌&&◌, ◌||◌,
  if◌then◌else◌, ltb, ◌==◌, Bool-cases, inl, inr, arith,
}
use blasthttp.Common.Integer.{pos, ◌⊖◌, ◌+ℤ◌}
use blasthttp.Cookies.Date.{days_from_march, days_from_civil}

abbrev is_leap : ℕ → Bool
is_leap y = (y % 4 == 0) && (not (y % 100 == 0) || (y % 400 == 0))

abbrev days_in : ℕ → ℕ → ℕ
days_in y m =
    if (m == 4) || (m == 6) || (m == 9) || (m == 11)
    then 30
    else if not (m == 2)
    then 31
    else if is_leap y
    then 29
    else 28

-- The date after a date.
abbrev tomorrow : ℕ → ℕ → ℕ → ℕ × ℕ × ℕ
tomorrow y m d =
    if ltb d (days_in y m) then (y, m, d + 1) else if ltb m 12 then (y, m + 1, 1) else (y + 1, 1, 1)

same_month : (y m d : ℕ) → 1 ≤ d → days_from_march y m (d + 1) ≡ days_from_march y m d + 1
unfolding days_from_march
same_month y m d h = ground arith

new_year : (y : ℕ) → 1 ≤ y → days_from_march (y + 1) 1 1 ≡ days_from_march y 12 31 + 1
unfolding days_from_march
new_year y h = omega arith

-- February has 29 days in a leap year.
leap_day : (y : ℕ) → 1 ≤ y → is_leap y ≡ true → days_from_march y 3 1 ≡ days_from_march y 2 29 + 1
unfolding days_from_march
leap_day y h leap = ground arith

common_year :
    (y : ℕ) → 1 ≤ y → is_leap y ≡ false → days_from_march y 3 1 ≡ days_from_march y 2 28 + 1
unfolding days_from_march
common_year y h leap = ground arith

february : (y : ℕ) → 1 ≤ y → days_from_march y 3 1 ≡ days_from_march y 2 (days_in y 2) + 1
february y h = elim (Bool-cases (is_leap y)) [
  | inl leap ↦ rw leap (leap_day y h leap)
  | inr common ↦ rw common (common_year y h common)
]

-- The first of a month follows the last of the month before.
month_end :
    (y m : ℕ)
    → 1 ≤ y
    → 1 ≤ m
    → m < 12
    → days_from_march y (m + 1) 1 ≡ days_from_march y m (days_in y m) + 1
unfolding days_from_march
month_end y zero hy lo hi = absurd (omega arith)
month_end y (suc zero) hy lo hi = omega arith
month_end y (suc (suc zero)) hy lo hi = february y hy
month_end y (suc (suc (suc zero))) hy lo hi = omega arith
month_end y (suc (suc (suc (suc zero)))) hy lo hi = omega arith
month_end y (suc (suc (suc (suc (suc zero))))) hy lo hi = omega arith
month_end y (suc (suc (suc (suc (suc (suc zero)))))) hy lo hi = omega arith
month_end y (suc (suc (suc (suc (suc (suc (suc zero))))))) hy lo hi = omega arith
month_end y (suc (suc (suc (suc (suc (suc (suc (suc zero)))))))) hy lo hi = omega arith
month_end y (suc (suc (suc (suc (suc (suc (suc (suc (suc zero))))))))) hy lo hi = omega arith
month_end y (suc (suc (suc (suc (suc (suc (suc (suc (suc (suc zero)))))))))) hy lo hi = omega arith
month_end y (suc (suc (suc (suc (suc (suc (suc (suc (suc (suc (suc zero))))))))))) hy lo hi =
    omega arith
month_end y (suc (suc (suc (suc (suc (suc (suc (suc (suc (suc (suc (suc m)))))))))))) hy lo hi =
    absurd (omega arith)

add_one : (a b : ℕ) → (a + 1) ⊖ b ≡ (a ⊖ b) +ℤ pos 1
add_one a b = ground arith

-- A tuple of numbers as the arguments of a function.
abbrev on_date : {A : Type 0} → (ℕ → ℕ → ℕ → A) → ℕ × ℕ × ℕ → A
on_date f (y, m, d) = f y m d

tomorrow_march :
    (y m d : ℕ)
    → 1 ≤ y
    → 1 ≤ m
    → m ≤ 12
    → 1 ≤ d
    → d ≤ days_in y m
    → on_date days_from_march (tomorrow y m d) ≡ days_from_march y m d + 1
tomorrow_march y m d hy lo hi first last = elim (Bool-cases (ltb d (days_in y m))) [
  | inl e ↦ rw e (same_month y m d first)
  | inr e ↦
      let end : d ≡ days_in y m = ground arith in
      elim (Bool-cases (ltb m 12)) [
        | inl more ↦
            rw (e, more)
              (month_end y m hy lo (ground arith) ∙ ap (λ n. days_from_march y m n + 1) (sym end))
        | inr whole ↦
            let december : m ≡ 12 = ground arith in
            rw (e, whole)
              (new_year y hy
                ∙ ap (λ k. days_from_march y k 31 + 1) (sym december)
                ∙ ap (λ n. days_from_march y m n + 1) (sym (end ∙ ap (days_in y) december)))
      ]
]

-- The first of January 1970 is day 0.
epoch : days_from_civil 1970 1 1 ≡ pos 0
unfolding days_from_civil days_from_march
epoch = refl

-- From a date of the Gregorian calendar to the date after it, leap years included, the count of
-- days grows by one.
days_from_civil-tomorrow :
    (y m d : ℕ)
    → 1 ≤ y
    → 1 ≤ m
    → m ≤ 12
    → 1 ≤ d
    → d ≤ days_in y m
    → on_date days_from_civil (tomorrow y m d) ≡ days_from_civil y m d +ℤ pos 1
unfolding days_from_civil
days_from_civil-tomorrow y m d hy lo hi first last =
    ap (λ n. n ⊖ 719468) (tomorrow_march y m d hy lo hi first last)
    ∙ add_one (days_from_march y m d) 719468
