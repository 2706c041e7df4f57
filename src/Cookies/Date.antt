-- ===== src/Cookies/Date.antt =====
-- `parse_http_date` and `days_from_civil` of src/cookies.rs.
use blasthttp.Common.{
  ℕ, ◌+◌, ◌-◌, ◌*◌, ◌/◌, Bool, not, ◌&&◌, ◌||◌, if◌then◌else◌, ltb, leb, ◌==◌, min, Option, none,
  some, List, [], ◌∷◌, map, length, take,
}
use blasthttp.Common.Bytes.{Bytes, codes}
use blasthttp.Common.Integer.{ℤ, pos, negsuc, ◌⊖◌, ◌+ℤ◌, scale, leℤ, parse_i64}
use blasthttp.Common.Maybe.{◌>>=◌, is_some, get_or_else}
use blasthttp.Common.Search.{position}
use blasthttp.Common.Text.{same, contains, split, split_whitespace}
use blasthttp.Config.Suffix.{lower}

-- The days before the date, counted from the first of March of the year 0. The caller's years are
-- positive, so the branch for a negative year is left out.
unfoldable pub days_from_march : ℕ → ℕ → ℕ → ℕ
days_from_march y m d =
    let year = if leb m 2 then y - 1 else y in
    let era = year / 400 in
    let yoe = year - era * 400 in
    let mp = if ltb 2 m then m - 3 else m + 9 in
    let doy = (153 * mp + 2) / 5 + d - 1 in
    let doe = yoe * 365 + yoe / 4 - yoe / 100 + doy in era * 146097 + doe

unfoldable pub days_from_civil : ℕ → ℕ → ℕ → ℤ
days_from_civil y m d = days_from_march y m d ⊖ 719468

abbrev pub months : List Bytes
months =
    codes "jan"
    ∷ codes "feb"
    ∷ codes "mar"
    ∷ codes "apr"
    ∷ codes "may"
    ∷ codes "jun"
    ∷ codes "jul"
    ∷ codes "aug"
    ∷ codes "sep"
    ∷ codes "oct"
    ∷ codes "nov"
    ∷ codes "dec"
    ∷ []

-- What the tokens have said so far.
pub record Fields : Type 0 where
  pub day : Option ℤ
  pub month : Option ℕ
  pub year : Option ℤ
  pub time : Option (ℤ × ℤ × ℤ)

abbrev nothing_yet : Fields
nothing_yet = record { day = none; month = none; year = none; time = none }

-- The hour, the minute and the second, which is 0 unless a number stands there.
abbrev pub parse_time : Bytes → Option (ℤ × ℤ × ℤ)
parse_time token = elim (split b':' token) [
  | h ∷ (m ∷ (s ∷ _)) ↦ do
    hour ← parse_i64 h
    minute ← parse_i64 m
    some (hour, minute, get_or_else (parse_i64 s) (pos 0))
  | h ∷ (m ∷ []) ↦ do hour ← parse_i64 h; minute ← parse_i64 m; some (hour, minute, pos 0)
  | _ ↦ none
]

abbrev between : ℕ → ℕ → ℤ → Bool
between lo hi n = leℤ (pos lo) n && leℤ n (pos hi)

-- A year of two digits is in this century or the last.
abbrev pub full_year : ℕ → ℤ → ℤ
full_year len n = if leb len 2 then (if leℤ n (pos 69) then pos 2000 +ℤ n else pos 1900 +ℤ n) else n

abbrev pub month_of : Bytes → Option ℕ
month_of token =
    if leb 3 (length token)
    then (position (same (lower (take 3 token))) months >>= λ i. some (i + 1))
    else none

abbrev pub take_number : ℕ → ℤ → Fields → Fields
take_number len n f =
    if not (is_some f.day) && leb len 2 && between 1 31 n
    then record { day = some n; month = f.month; year = f.year; time = f.time }
    else if not (is_some f.year)
    then record { day = f.day; month = f.month; year = some (full_year len n); time = f.time }
    else f

abbrev pub numbered : Bytes → Option ℤ → Fields → Fields
numbered token none f = f
numbered token (some n) f = take_number (length token) n f

-- The body of the loop: `none` gives up on the whole date.
abbrev pub take_token : Bytes → Fields → Option Fields
take_token token f =
    if contains b':' token && not (is_some f.time)
    then (parse_time token >>= λ time.
        some record { day = f.day; month = f.month; year = f.year; time = some time })
    else elim (if is_some f.month then none else month_of token) [
      | some m ↦ some record { day = f.day; month = some m; year = f.year; time = f.time }
      | none ↦ some (numbered token (parse_i64 token) f)
    ]

abbrev pub take_tokens : List Bytes → Fields → Option Fields
take_tokens [] f = some f
take_tokens (t ∷ ts) f = take_token t f >>= take_tokens ts

abbrev space_out : ℕ → ℕ
space_out c = if c == b'-' || c == b',' then 32 else c

-- A year within the range of the calendar.
abbrev pub clamp_year : ℤ → Option ℕ
clamp_year (negsuc n) = none
clamp_year (pos n) = if ltb n 1601 then none else some (min n 9999)

abbrev pub to_nat : ℤ → ℕ
to_nat (pos n) = n
to_nat (negsuc n) = 0

unfoldable pub parse_http_date : Bytes → Option ℤ
parse_http_date s = do
  f ← take_tokens (split_whitespace (map space_out s)) nothing_yet
  day ← f.day
  month ← f.month
  year ← f.year
  let (h, m, sec) = get_or_else f.time (pos 0, pos 0, pos 0)
  y ←
      if not (between 0 23 h) || not (between 0 59 m) || not (between 0 60 sec)
      then none
      else clamp_year year
  some (scale (days_from_civil y month (to_nat day)) 86400 +ℤ scale h 3600 +ℤ scale m 60 +ℤ sec)
