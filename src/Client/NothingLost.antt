-- ===== src/Client/NothingLost.antt =====
-- `perform_http_connect` of src/client/proxy.rs opens no tunnel but on status 200, and what it has read
-- and what it has left are together what the proxy sends.
use blasthttp.Common.{
  ℕ, ◌-◌, ◌^◌, ◌≤◌, ◌≡◌, inl, inr, refl, sym, ap, ◌∙◌, true, Bool-cases, leb, ◌==◌, ==_iff, Option,
  none, some, List, [], ◌∷◌, ◌++◌, length, length-append, length-take, take, drop, take-append-drop,
  take-whole, leb→le, append_assoc, arith,
}
use blasthttp.Common.Bytes.{Bytes}
use blasthttp.Common.Integer.{parse_unsigned}
use blasthttp.Common.Maybe.{is_some}
use blasthttp.Common.Result.{Result, ok, err, >>=-eq-ok, ok_inj}
use blasthttp.Common.Text.{split_once, split_first}
use blasthttp.Client.Connect.{
  Socket, stream, find_crlf_crlf, connect_request, unread, read_response, status_line, check_code,
  check_line, check_response, perform_http_connect,
}

stream-unread :
    (leftover : Bytes) (reads : List (Result Bytes Bytes))
    → stream (unread leftover reads) ≡ leftover ++ stream reads
stream-unread [] reads = refl
stream-unread (b ∷ leftover) reads = refl

-- What the loop promises of its outcome.
abbrev Kept : Bytes → List (Result Bytes Bytes) → Bytes → List (Result Bytes Bytes) → Type 0
Kept buf reads response later =
    (buf ++ stream reads ≡ response ++ stream later)
    × (is_some (find_crlf_crlf response) ≡ true)
    × (length response ≤ 8192)

-- A full buffer ends the loop.
full_ends :
    (buf : Bytes) (reads : List (Result Bytes Bytes)) (x : Bytes × List (Result Bytes Bytes))
    → leb 8192 (length buf) ≡ true
    → ¬ (read_response buf reads ≡ ok x)
unfolding read_response
full_ends buf [] x full h = let no = rw full at h in absurd cc
full_ends buf (err e ∷ reads) x full h = let no = rw full at h in absurd cc
full_ends buf (ok arrived ∷ reads) x full h = let no = rw full at h in absurd cc

read_response-Kept :
    (buf : Bytes) (reads : List (Result Bytes Bytes)) (response : Bytes)
    (later : List (Result Bytes Bytes))
    → length buf ≤ 8192
    → read_response buf reads ≡ ok (response, later)
    → Kept buf reads response later
unfolding read_response
read_response-Kept buf [] response later small h = elim (Bool-cases (leb 8192 (length buf))) [
  | inl e ↦ let no = rw e at h in absurd cc
  | inr e ↦ let no = rw e at h in absurd cc
]
read_response-Kept buf (err e ∷ reads) response later small h =
    elim (Bool-cases (leb 8192 (length buf))) [
      | inl full ↦ let no = rw full at h in absurd cc
      | inr open_room ↦ let no = rw open_room at h in absurd cc
    ]
read_response-Kept buf (ok [] ∷ reads) response later small h =
    elim (Bool-cases (leb 8192 (length buf))) [
      | inl full ↦ let no = rw full at h in absurd cc
      | inr open_room ↦ let no = rw open_room at h in absurd cc
    ]
read_response-Kept buf (ok (b ∷ arrived) ∷ reads) response later small h =
    let piece = b ∷ arrived in
    let room = 8192 - length buf in
    let filled = buf ++ take room piece in
    let total = length-append buf (take room piece) in
    let taken = length-take room piece in
    let whole : filled ++ (drop room piece ++ stream reads) ≡ buf ++ (piece ++ stream reads) =
      append_assoc buf (take room piece) (drop room piece ++ stream reads)
      ∙ ap (λ t. buf ++ t)
          (sym (append_assoc (take room piece) (drop room piece) (stream reads))
            ∙ ap (λ t. t ++ stream reads) (take-append-drop room piece)) in
    elim (Bool-cases (leb 8192 (length buf))) [
      | inl full ↦ absurd (full_ends buf (ok piece ∷ reads) (response, later) full h)
      | inr open_room ↦ elim (Bool-cases (is_some (find_crlf_crlf filled))) [
        | inl found ↦
            let e = ok_inj (rw (open_room, found) at h) in
            let read : filled ≡ response = ap (λ x. x.0) e in
            let left : unread (drop room piece) reads ≡ later = ap (λ x. x.1) e in
            (
              sym whole
                  ∙ ap (λ t. filled ++ t) (sym (stream-unread (drop room piece) reads))
                  ∙ ap (λ t. filled ++ stream t) left
                  ∙ ap (λ t. t ++ stream later) read,
              ap (λ t. is_some (find_crlf_crlf t)) (sym read) ∙ found,
              omega (arith, ap length read),
            )
        | inr more ↦
            let next : read_response filled reads ≡ ok (response, later) =
              rw (open_room, more) at h in
            elim (Bool-cases (leb (length piece) room)) [
              | inl fits ↦
                  let all = take-whole room piece (leb→le _ _ fits) in
                  let (kept, found, bound) =
                    read_response-Kept filled reads response later (omega arith) next in
                  (
                    sym (append_assoc buf piece (stream reads))
                        ∙ ap (λ t. (buf ++ t) ++ stream reads) (sym all)
                        ∙ kept,
                    found,
                    bound,
                  )
              | inr over ↦
                  let full : leb 8192 (length filled) ≡ true = ground arith in
                  absurd (full_ends filled reads (response, later) full next)
            ]
      ]
    ]

-- The status code of an answer.
abbrev pub code_in : Option (Bytes × Bytes) → Option ℕ
code_in none = none
code_in (some (version, rest)) = parse_unsigned (2 ^ 16 - 1) (split_first b' ' rest).0

abbrev pub code_of : Bytes → Option ℕ
code_of response = code_in (split_once b' ' (status_line response))

module _ (debug_text lossy_text : Bytes → Bytes) where
  check_code-ok :
      (host : Bytes) (port : ℕ) (line text : Bytes) (o : Option ℕ)
      → check_code debug_text lossy_text host port line text o ≡ ok tt
      → o ≡ some 200
  check_code-ok host port line text none h = absurd cc
  check_code-ok host port line text (some code) h = elim (Bool-cases (code == 200)) [
    | inl e ↦ ap some ((==_iff code 200).0 e)
    | inr e ↦ let no = rw e at h in absurd cc
  ]

  check_line-ok :
      (host : Bytes) (port : ℕ) (line : Bytes) (o : Option (Bytes × Bytes))
      → check_line debug_text lossy_text host port line o ≡ ok tt
      → code_in o ≡ some 200
  check_line-ok host port line none h = absurd cc
  check_line-ok host port line (some (version, rest)) h =
      check_code-ok host port line (split_first b' ' rest).0 (code_in (some (version, rest))) h

  -- A tunnel that opens: the request was written, and what was read is an answer of at most 8192
  -- bytes with a blank line and the status code 200; behind it every byte that the proxy sends is
  -- left to be read or was read with the answer, in order.
  pub perform_http_connect-Kept :
      (failure : Option Bytes) (host : Bytes) (port : ℕ) (tcp after : Socket)
      → perform_http_connect debug_text lossy_text failure host port tcp ≡ ok after
      → (failure ≡ none)
        × (after.written ≡ tcp.written ++ connect_request host port)
        × ((response : Bytes) × (code_of response ≡ some 200)
            × (stream tcp.reads ≡ response ++ stream after.reads)
            × (is_some (find_crlf_crlf response) ≡ true)
            × (length response ≤ 8192))
  unfolding perform_http_connect
  perform_http_connect-Kept (some e) host port tcp after h = absurd cc
  perform_http_connect-Kept none host port tcp after h =
      let ((response, later), read, next) = >>=-eq-ok (read_response [] tcp.reads) _ h in
      let (_, checked, end) =
        >>=-eq-ok (check_response debug_text lossy_text host port response) _ next in
      let e = ok_inj end in
      let (kept, found, bound) =
        read_response-Kept [] tcp.reads response later (omega arith) read in
      (
        refl,
        sym (ap (λ t. t.written) e),
        (
          response,
          check_line-ok host port (status_line response) (split_once b' ' (status_line response))
              checked,
          kept ∙ ap (λ t. response ++ stream t.reads) e,
          found,
          bound,
        ),
      )
