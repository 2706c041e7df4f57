-- ===== src/Client/Body.antt =====
-- `read_body` of src/client/hyper.rs: a body that arrives in frames, cut at a size.
use blasthttp.Common.{
  ℕ, zero, suc, Option, none, some, ◌+◌, ◌-◌, ◌≤◌, ◌<◌, ◌≡◌, refl, sym, ap, ◌∙◌, Bool, true, false,
  if◌then◌else◌, Bool-cases, inl, inr, ltb, List, [], ◌∷◌, ◌++◌, length, length-append, take,
  append-nil, append_assoc, arith,
}
use blasthttp.Common.Bytes.{Bytes, codes}
use blasthttp.Common.Result.{Result, ok, err}
use blasthttp.Client.Error.{ClientError, error_of, connection}

-- A frame that is no data is trailers.
pub data Frame : Type 0 where
  chunk : Bytes → Frame
  trailers : Frame
  broken : (error : Bytes) → Frame

unfoldable pub read_body : ℕ → List Frame → Bytes → Result ClientError (Bytes × Bool)
read_body max_size [] out = ok (out, false)
read_body max_size (broken e ∷ frames) out =
    err (error_of connection (codes "failed to read body: " ++ e))
read_body max_size (trailers ∷ frames) out = read_body max_size frames out
read_body max_size (chunk [] ∷ frames) out = read_body max_size frames out
read_body max_size (chunk (b ∷ c) ∷ frames) out =
    elim (ltb (max_size - length out) (length (b ∷ c))) [
      | true ↦ ok (out ++ take (max_size - length out) (b ∷ c), true)
      | false ↦ read_body max_size frames (out ++ (b ∷ c))
    ]

-- What the frames before the first broken one carry.
abbrev pub data_of : List Frame → Bytes
data_of [] = []
data_of (broken e ∷ frames) = []
data_of (trailers ∷ frames) = data_of frames
data_of (chunk c ∷ frames) = c ++ data_of frames

-- The error that ends the body, if one does.
abbrev pub error_in : List Frame → Option Bytes
error_in [] = none
error_in (broken e ∷ frames) = some e
error_in (trailers ∷ frames) = error_in frames
error_in (chunk c ∷ frames) = error_in frames

abbrev pub ended : Bytes → Option Bytes → Result ClientError (Bytes × Bool)
ended bytes none = ok (bytes, false)
ended bytes (some e) = err (error_of connection (codes "failed to read body: " ++ e))

-- The first bytes of a body that is too long; the body, if it is whole; else its error.
abbrev pub bounded_body : ℕ → Bytes → Option Bytes → Result ClientError (Bytes × Bool)
bounded_body max_size bytes error =
    if ltb max_size (length bytes) then ok (take max_size bytes, true) else ended bytes error

within_bound :
    (max_size : ℕ) (out : Bytes) (error : Option Bytes)
    → length out ≤ max_size
    → bounded_body max_size (out ++ []) error ≡ ended out error
within_bound max_size out error h =
    let fits : ltb max_size (length out) ≡ false = ground arith in
    ap (λ t. bounded_body max_size t error) (append-nil out) ∙ rw fits refl

take-front : (n : ℕ) (ys zs : Bytes) → n ≤ length ys → take n (ys ++ zs) ≡ take n ys
take-front zero ys zs h = refl
take-front (suc n) [] zs h = absurd (omega arith)
take-front (suc n) (y ∷ ys) zs h = ap (λ t. y ∷ t) (take-front n ys zs (omega arith))

-- A bound within the second of three parts takes the first and some of the second.
take-prefix :
    (n : ℕ) (xs ys zs : Bytes)
    → length xs ≤ n
    → n < length xs + length ys
    → take n (xs ++ (ys ++ zs)) ≡ xs ++ take (n - length xs) ys
take-prefix n [] ys zs h k = take-front n ys zs (omega arith) ∙ ap (λ j. take j ys) (omega arith)
take-prefix (suc n) (x ∷ xs) ys zs h k =
    ap (λ t. x ∷ t) (take-prefix n xs ys zs (omega arith) (omega arith))
    ∙ ap (λ j. x ∷ (xs ++ take j ys)) (omega arith)
take-prefix zero (x ∷ xs) ys zs h k = absurd (omega arith)

read_body-bounded_body :
    (max_size : ℕ) (frames : List Frame) (out : Bytes)
    → length out ≤ max_size
    → read_body max_size frames out
      ≡ bounded_body max_size (out ++ data_of frames) (error_in frames)
unfolding read_body
read_body-bounded_body max_size [] out h = sym (within_bound max_size out none h)
read_body-bounded_body max_size (broken e ∷ frames) out h =
    sym (within_bound max_size out (some e) h)
read_body-bounded_body max_size (trailers ∷ frames) out h =
    read_body-bounded_body max_size frames out h
read_body-bounded_body max_size (chunk [] ∷ frames) out h =
    read_body-bounded_body max_size frames out h
read_body-bounded_body max_size (chunk (b ∷ c) ∷ frames) out h =
    elim (Bool-cases (ltb (max_size - length out) (length (b ∷ c)))) [
      | inl e ↦
          let over : ltb max_size (length (out ++ ((b ∷ c) ++ data_of frames))) ≡ true = ground (
            arith,
            length-append out ((b ∷ c) ++ data_of frames),
            length-append c (data_of frames),
          ) in
          let cut = take-prefix max_size out (b ∷ c) (data_of frames) h (ground arith) in
          rw (e, read_body, over, cut) refl
      | inr e ↦
          let n = length-append out (b ∷ c) in
          rw (e, read_body)
            (read_body-bounded_body max_size frames (out ++ (b ∷ c)) (ground arith)
              ∙ ap (λ t. bounded_body max_size t (error_in frames))
                  (append_assoc out (b ∷ c) (data_of frames)))
    ]

-- Of a body in any frames, what is read is its first `max_size` bytes, marked as cut, if it has more
-- before an error; else all of it, or its error.
pub read_body_lem :
    (max_size : ℕ) (frames : List Frame)
    → read_body max_size frames [] ≡ bounded_body max_size (data_of frames) (error_in frames)
read_body_lem max_size frames = read_body-bounded_body max_size frames [] (omega arith)
