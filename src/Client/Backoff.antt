-- ===== src/Client/Backoff.antt =====
-- `retry_backoff` of src/client/hyper.rs. A `Duration` is its nanoseconds.
use blasthttp.Common.{ℕ, ◌+◌, ◌*◌, ◌-◌, ◌%◌, ◌^◌, ◌≤◌, ◌<◌, min, ◌≡◌, ap, ◌∙◌, arith}
use blasthttp.Common.Digits.{pow_add}
use native.Mathlib.Nat.{pow-le-pow_right}

-- `Duration::MAX`: the seconds of a `u64`, and nanoseconds below one second
abbrev pub duration_max : ℕ
duration_max = (2 ^ 64 - 1) * 1000000000 + 999999999

-- `saturating_pow`, the cast to `u32`, `saturating_mul` and `min`
unfoldable pub retry_backoff : ℕ → ℕ → ℕ → ℕ
retry_backoff attempt min_wait max_wait =
    let factor = min (2 ^ attempt) (2 ^ 64 - 1) in
    let backoff = min (min_wait * (factor % 2 ^ 32)) duration_max in min backoff max_wait

-- Up to the 32nd retry, the wait doubles from the minimum until it is the maximum.
retry_backoff_doubles :
    (attempt min_wait max_wait : ℕ)
    → attempt < 32
    → max_wait ≤ duration_max
    → retry_backoff attempt min_wait max_wait ≡ min (min_wait * 2 ^ attempt) max_wait
unfolding retry_backoff
retry_backoff_doubles attempt min_wait max_wait h fits =
    let small : 2 ^ attempt ≤ 2 ^ 31 =
      pow-le-pow_right {n = 2} (omega arith) {j = 31} (omega arith) in
    let factor : min (2 ^ attempt) (2 ^ 64 - 1) % 2 ^ 32 ≡ 2 ^ attempt = omega arith in
    ap (λ (f : ℕ). min (min (min_wait * f) duration_max) max_wait) factor ∙ omega arith

-- From the 33rd retry to the 64th the cast leaves no bit of the factor: there is no wait at all,
-- whatever the minimum and the maximum.
retry_backoff_vanishes :
    (attempt min_wait max_wait : ℕ)
    → 32 ≤ attempt
    → attempt < 64
    → retry_backoff attempt min_wait max_wait ≡ 0
unfolding retry_backoff
retry_backoff_vanishes attempt min_wait max_wait lo hi =
    let small : 2 ^ attempt ≤ 2 ^ 63 =
      pow-le-pow_right {n = 2} (omega arith) {j = 63} (omega arith) in
    let k : ℕ = attempt - 32 in
    let split : 2 ^ attempt ≡ 2 ^ k * 2 ^ 32 = ap (λ (n : ℕ). 2 ^ n) (omega arith) ∙ pow_add k 32 in
    let factor : min (2 ^ attempt) (2 ^ 64 - 1) % 2 ^ 32 ≡ 0 = omega arith in
    ap (λ (f : ℕ). min (min (min_wait * f) duration_max) max_wait) factor ∙ omega arith
