-- ===== src/Client/Merged.antt =====
-- `merge_cookies` of src/client/hyper.rs: the cookies of the caller before those of a chain.
use blasthttp.Common.{
  ℕ, ◌≡◌, ◌==◌, ◌||◌, refl, ap, ◌∙◌, true, false, if◌then◌else◌, [], ◌∷◌, ◌++◌, append_assoc, All,
  All-append, arith,
}
use blasthttp.Common.Bytes.{Bytes}
use blasthttp.Common.Search.{All-map}
use blasthttp.Common.Text.{is_nil, is_space, trim, trim_start_matches, trim_end_matches}
use blasthttp.Common.Trim.{trim_start_split, trim_end_split, trim_end_last}
use blasthttp.Client.Headers.{is_separator, merge_cookies}

-- A caller's cookies with those of the chain behind them: what the caller's value has between blanks,
-- without blanks and semicolons at its end, then `; ` if there is anything, and the chain's.
pub record Joined (value cookies merged : Bytes) : Type 0 where
  pub front : Bytes
  pub kept : Bytes
  pub tail : Bytes
  pub text : value ≡ front ++ (kept ++ tail)
  pub blank_front : All (λ b. is_space b ≡ true) front
  pub blank_tail : All (λ b. (is_space b || b == b';') ≡ true) tail
  pub clean : (init : Bytes) (c : ℕ) → kept ≡ init ++ (c ∷ []) → (c == b';' || c == b' ') ≡ false
  pub merged_is : merged ≡ (if is_nil kept then cookies else kept ++ (b';' ∷ (b' ' ∷ cookies)))

space_blank :
    (xs : Bytes) → All (λ b. is_space b ≡ true) xs → All (λ b. (is_space b || b == b';') ≡ true) xs
space_blank xs h = All-map _ _ (λ b e. rw e refl) xs h

separator_blank :
    (xs : Bytes)
    → All (λ b. is_separator b ≡ true) xs
    → All (λ b. (is_space b || b == b';') ≡ true) xs
separator_blank xs h = All-map _ _ (λ b e. ground arith) xs h

pub merge_cookies-Joined :
    (value cookies : Bytes) → Joined value cookies (merge_cookies value cookies)
merge_cookies-Joined value cookies =
    let inner = trim_start_matches is_space value in
    let (front, a, fa) = trim_start_split is_space value in
    let (spaces, b, fb) = trim_end_split is_space inner in
    let (separators, c, fc) = trim_end_split is_separator (trim value) in
    let kept = trim_end_matches is_separator (trim value) in
    record {
      front = front;
      kept = kept;
      tail = separators ++ spaces;
      text =
          a
          ∙ ap (λ t. front ++ t)
              (b ∙ ap (λ t. t ++ spaces) c ∙ append_assoc kept separators spaces);
      blank_front = fa;
      blank_tail =
          All-append _ separators spaces (separator_blank separators fc) (space_blank spaces fb);
      clean = λ init x h. trim_end_last is_separator (trim value) init x h;
      merged_is = refl;
    }
