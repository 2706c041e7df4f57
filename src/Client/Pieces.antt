-- ===== src/Client/Pieces.antt =====
-- The loop of `perform_http_connect` of src/client/proxy.rs reads an answer in whatever pieces it
-- arrives.
use blasthttp.Common.{
  ℕ, suc, ◌+◌, ◌-◌, ◌≤◌, ◌≡◌, ◌⊎◌, inl, inr, refl, sym, ap, ◌∙◌, true, false, ◌&&◌, if◌then◌else◌,
  Bool-cases, Option-cases, some_inj, leb, ◌==◌, Option, none, some, List, [], ◌∷◌, ◌++◌, length,
  length-append, take-whole, drop-whole, All, append_assoc, append-nil, arith,
}
use blasthttp.Common.Bytes.{Bytes}
use blasthttp.Common.Maybe.{is_some}
use blasthttp.Common.Result.{Result, ok}
use blasthttp.Common.Text.{is_nil, starts_with, starts_with_iff}
use mathlib.Core.Path.{subst}
use blasthttp.Client.Connect.{blank_line, find_crlf_crlf, read_response}

abbrev pub together : List Bytes → Bytes
together [] = []
together (s ∷ pieces) = s ++ together pieces

abbrev pub arriving : List Bytes → List (Result Bytes Bytes)
arriving [] = []
arriving (s ∷ pieces) = ok s ∷ arriving pieces

-- Where the blank line stands: here, or behind the first byte.
abbrev Stands : ℕ → Bytes → ℕ → Type 0
Stands b p i =
    ((starts_with (b ∷ p) blank_line ≡ true) × (i ≡ 0))
    ⊎ ((starts_with (b ∷ p) blank_line ≡ false)
        × ((j : ℕ) × (find_crlf_crlf p ≡ some j) × (i ≡ suc j)))

find_crlf_crlf_cases : (b : ℕ) (p : Bytes) (i : ℕ) → find_crlf_crlf (b ∷ p) ≡ some i → Stands b p i
unfolding find_crlf_crlf
find_crlf_crlf_cases b p i h = elim (Bool-cases (starts_with (b ∷ p) blank_line)) [
  | inl e ↦ inl (e, sym (some_inj (rw e at h)))
  | inr e ↦ elim (Option-cases (find_crlf_crlf p)) [
    | inl n ↦ let no : ◌≡◌ {A = Option ℕ} none (some i) = rw (e, n) at h in absurd cc
    | inr (j, s) ↦ inr (e, (j, s, sym (some_inj (rw (e, s) at h))))
  ]
]

find_crlf_crlf-bound : (p : Bytes) (i : ℕ) → find_crlf_crlf p ≡ some i → i + 4 ≤ length p
unfolding find_crlf_crlf
find_crlf_crlf-bound [] i h = absurd cc
find_crlf_crlf-bound (b ∷ p) i h = elim (find_crlf_crlf_cases b p i h) [
  | inl (e, at) ↦
      let (rest, split) = (starts_with_iff (b ∷ p) blank_line).0 e in
      omega (arith, ap length split, length-append blank_line rest)
  | inr (e, (j, s, at)) ↦ omega (arith, find_crlf_crlf-bound p j s)
]

starts_with-longer :
    (xs s q : Bytes) → length s ≤ length xs → starts_with (xs ++ q) s ≡ starts_with xs s
unfolding starts_with
starts_with-longer [] [] q h = refl
starts_with-longer [] (c ∷ s) q h = absurd (omega arith)
starts_with-longer (x ∷ xs) [] q h = refl
starts_with-longer (x ∷ xs) (c ∷ s) q h =
    ap (λ r. (x == c) && r) (starts_with-longer xs s q (omega arith))

find_crlf_crlf-append :
    (p q : Bytes) (i : ℕ) → find_crlf_crlf p ≡ some i → find_crlf_crlf (p ++ q) ≡ some i
unfolding find_crlf_crlf
find_crlf_crlf-append [] q i h = absurd cc
find_crlf_crlf-append (b ∷ p) q i h =
    let bound = find_crlf_crlf-bound (b ∷ p) i h in
    let same_start = starts_with-longer (b ∷ p) blank_line q (omega arith) in
    elim (find_crlf_crlf_cases b p i h) [
      | inl (e, at) ↦ rw (same_start ∙ e) (ap some (sym at))
      | inr (e, (j, s, at)) ↦ rw (same_start ∙ e, find_crlf_crlf-append p q j s) (ap some (sym at))
    ]

-- An answer is whole when the blank line is its end.
abbrev pub Whole : Bytes → Type 0
Whole response = (i : ℕ) × (find_crlf_crlf response ≡ some i) × (length response ≡ i + 4)

-- No shorter part of it has the blank line.
Whole-shorter :
    (p q : Bytes) → Whole (p ++ q) → is_nil q ≡ false → is_some (find_crlf_crlf p) ≡ false
Whole-shorter p [] w h = absurd cc
Whole-shorter p (x ∷ q) (i, found, end) h = elim (Option-cases (find_crlf_crlf p)) [
  | inl n ↦ ap is_some n
  | inr (j, s) ↦
      let same_at : j ≡ i = some_inj (sym (find_crlf_crlf-append p (x ∷ q) j s) ∙ found) in
      absurd (omega (arith, find_crlf_crlf-bound p j s, length-append p (x ∷ q)))
]

some_length : (s : Bytes) → is_nil s ≡ false → 1 ≤ length s
some_length [] h = absurd cc
some_length (x ∷ s) h = omega arith

-- One read that fits: the answer is whole, or the loop goes on.
read_response-read :
    (buf s : Bytes) (later : List (Result Bytes Bytes))
    → is_nil s ≡ false
    → length (buf ++ s) ≤ 8192
    → read_response buf (ok s ∷ later) ≡ (
        if is_some (find_crlf_crlf (buf ++ s))
        then ok (buf ++ s, later)
        else read_response (buf ++ s) later)
unfolding read_response
read_response-read buf s later h small =
    let total = length-append buf s in
    let positive = some_length s h in
    let fits : length s ≤ 8192 - length buf = omega arith in
    let open_room : leb 8192 (length buf) ≡ false = ground arith in
    rw (open_room, h, take-whole (8192 - length buf) s fits, drop-whole (8192 - length buf) s fits)
      refl

together-is_nil :
    (t : Bytes) (pieces : List Bytes) → is_nil t ≡ false → is_nil (together (t ∷ pieces)) ≡ false
together-is_nil [] pieces h = absurd cc
together-is_nil (x ∷ t) pieces h = refl

-- The answer in pieces: what was read, and what is to come with a piece that has bytes.
pub read_response-pieces :
    (pieces : List Bytes) (buf s : Bytes) (later : List (Result Bytes Bytes))
    → All (λ p. is_nil p ≡ false) (s ∷ pieces)
    → Whole (buf ++ together (s ∷ pieces))
    → length (buf ++ together (s ∷ pieces)) ≤ 8192
    → read_response buf (arriving (s ∷ pieces) ++ later) ≡ ok (buf ++ together (s ∷ pieces), later)
read_response-pieces [] buf s later some_bytes whole small =
    let all_read : buf ++ (s ++ []) ≡ buf ++ s = ap (λ t. buf ++ t) (append-nil s) in
    let (i, found, end) = whole in
    let hit : is_some (find_crlf_crlf (buf ++ s)) ≡ true =
      ap (λ t. is_some (find_crlf_crlf t)) (sym all_read) ∙ ap is_some found in
    read_response-read buf s later some_bytes.0 (omega (arith, ap length all_read))
    ∙ rw (hit, all_read) refl
read_response-pieces (t ∷ pieces) buf s later some_bytes whole small =
    let others = together (t ∷ pieces) in
    let split : (buf ++ s) ++ others ≡ buf ++ (s ++ others) = append_assoc buf s others in
    let whole' : Whole ((buf ++ s) ++ others) = subst Whole (sym split) whole in
    let more : is_nil others ≡ false = together-is_nil t pieces some_bytes.1.0 in
    let small' : length ((buf ++ s) ++ others) ≤ 8192 = omega (arith, ap length split) in
    let short : length (buf ++ s) ≤ 8192 = omega (arith, length-append (buf ++ s) others) in
    read_response-read buf s (arriving (t ∷ pieces) ++ later) some_bytes.0 short
    ∙ rw (Whole-shorter (buf ++ s) others whole' more) (
        read_response-pieces pieces (buf ++ s) t later some_bytes.1 whole' small'
        ∙ ap (λ r. ok (r, later)) split)
