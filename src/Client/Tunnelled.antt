-- ===== src/Client/Tunnelled.antt =====
-- When `perform_http_connect` of src/client/proxy.rs opens a tunnel, in whatever pieces the proxy's
-- answer arrives.
use blasthttp.Common.{
  ℕ, ◌-◌, ◌^◌, ◌≤◌, ◌<◌, ◌≡◌, ◌⊎◌, inl, inr, refl, ap, ◌∙◌, false, if◌then◌else◌, Bool-cases, ◌==◌,
  none, some, List, [], ◌∷◌, ◌++◌, length, All, append-nil,
}
use blasthttp.Common.Bytes.{Bytes, codes}
use blasthttp.Common.Result.{Result, ok, err, ◌>>=◌}
use blasthttp.Common.Text.{is_nil, contains}
use blasthttp.Common.Search.{position}
use blasthttp.Common.Split.{
  contains_not, contains-append, split_once-append, split_first-whole, split_first-append,
}
use blasthttp.Client.Numbers.{contains-decimal, parse_unsigned-decimal}
use blasthttp.Client.Error.{decimal}
use blasthttp.Common.{take-append}
use blasthttp.Common.Text.{split_first}
use blasthttp.Client.Connect.{
  Socket, status_line, ends_line, connect_request, check_response, perform_http_connect,
}
use blasthttp.Client.Pieces.{together, arriving, Whole, read_response-pieces}
use blasthttp.Common.Integer.{parse_unsigned}
use blasthttp.Common.Text.{split_once}
use blasthttp.Client.Connect.{refused, check_line, check_code}

-- The first line of an answer: a version, a status code, and text behind a space if there is any.
pub data Reason : Bytes → Type 0 where
  no_reason : Reason []
  reason : (r : Bytes) → contains 13 r ≡ false → contains 10 r ≡ false → Reason (b' ' ∷ r)

pub record Version (version : Bytes) : Type 0 where
  pub no_space : contains b' ' version ≡ false
  pub no_cr : contains 13 version ≡ false
  pub no_lf : contains 10 version ≡ false

abbrev pub line_text : Bytes → ℕ → Bytes → Bytes
line_text version code r = version ++ (b' ' ∷ (decimal code ++ r))

position_line :
    (front rest : Bytes)
    → contains 13 front ≡ false
    → contains 10 front ≡ false
    → position ends_line (front ++ (13 ∷ rest)) ≡ some (length front)
unfolding position
position_line [] rest cr lf = refl
position_line (x ∷ front) rest cr lf =
    let (first, others) = contains_not 13 x front cr in
    let (second, more) = contains_not 10 x front lf in
    rw (first, second, position_line front rest others more) refl

status_line-front :
    (front rest : Bytes)
    → contains 13 front ≡ false
    → contains 10 front ≡ false
    → status_line (front ++ (13 ∷ rest)) ≡ front
status_line-front front rest cr lf =
    rw (status_line, position_line front rest cr lf)
      (take-append (length front) front (13 ∷ rest) refl)

line_text-plain :
    (c : ℕ) (version : Bytes) (code : ℕ) (r : Bytes)
    → contains c version ≡ false
    → contains c (decimal code) ≡ false
    → contains c (b' ' ∷ r) ≡ false
    → contains c (line_text version code r) ≡ false
line_text-plain c version code r hv hc hr =
    let (space, others) = contains_not c b' ' r hr in
    contains-append c version (b' ' ∷ (decimal code ++ r)) hv
      (rw space (contains-append c (decimal code) r hc others))

code_read :
    (code : ℕ) (r : Bytes) → Reason r → (split_first b' ' (decimal code ++ r)).0 ≡ decimal code
code_read code r no_reason =
    rw (append-nil (decimal code))
      (ap (λ x. x.0) (split_first-whole b' ' (decimal code) (contains-decimal b' ' code refl)))
code_read code r (reason t cr lf) =
    split_first-append b' ' (decimal code) t (contains-decimal b' ' code refl)

Reason-plain : (c : ℕ) {r : Bytes} → (c ≡ 13) ⊎ (c ≡ 10) → Reason r → contains c (b' ' ∷ r) ≡ false
Reason-plain c (inl e) no_reason = ap (λ k. contains k (b' ' ∷ [])) e
Reason-plain c (inr e) no_reason = ap (λ k. contains k (b' ' ∷ [])) e
Reason-plain c (inl e) (reason r cr lf) = ap (λ k. contains k (b' ' ∷ (b' ' ∷ r))) e ∙ cr
Reason-plain c (inr e) (reason r cr lf) = ap (λ k. contains k (b' ' ∷ (b' ' ∷ r))) e ∙ lf

module _ (debug_text lossy_text : Bytes → Bytes) where
  check_response-line :
      (host : Bytes) (port code : ℕ) (version r rest : Bytes)
      → Version version
      → Reason r
      → code < 2 ^ 16
      → check_response debug_text lossy_text host port (line_text version code r ++ (13 ∷ rest))
        ≡ check_code debug_text lossy_text host port
            (line_text version code r)
            (decimal code)
            (some code)
  check_response-line host port code version r rest v why small =
      let line = line_text version code r in
      let cr =
        line_text-plain 13 version code r v.no_cr (contains-decimal 13 code refl)
          (Reason-plain 13 (inl refl) why) in
      let lf =
        line_text-plain 10 version code r v.no_lf (contains-decimal 10 code refl)
          (Reason-plain 10 (inr refl) why) in
      ap (λ l. check_line debug_text lossy_text host port l (split_once b' ' l))
        (status_line-front line rest cr lf)
      ∙ ap (check_line debug_text lossy_text host port line)
          (split_once-append b' ' version (decimal code ++ r) v.no_space)
      ∙ ap (λ t. check_code debug_text lossy_text host port line t (parse_unsigned (2 ^ 16 - 1) t))
          (code_read code r why)
      ∙ ap (check_code debug_text lossy_text host port line (decimal code))
          (parse_unsigned-decimal code small)

  -- However the proxy's answer is cut into pieces that have bytes, if it ends in its first blank line
  -- and has at most 8192 bytes, status 200 opens the tunnel with nothing of what comes later read and
  -- with the CONNECT request written, and any other 16-bit status is an error of the kind connection
  -- that names the host, the port and the status line.
  pub perform_http_connect-opens :
      (host : Bytes) (port code : ℕ) (version r rest : Bytes) (s : Bytes) (pieces : List Bytes)
      (later : List (Result Bytes Bytes))
      → Version version
      → Reason r
      → code < 2 ^ 16
      → All (λ p. is_nil p ≡ false) (s ∷ pieces)
      → together (s ∷ pieces) ≡ line_text version code r ++ (13 ∷ rest)
      → Whole (together (s ∷ pieces))
      → length (together (s ∷ pieces)) ≤ 8192
      → perform_http_connect debug_text lossy_text none host port
          record { reads = arriving (s ∷ pieces) ++ later; written = [] }
        ≡ (if code == 200
            then ok record { reads = later; written = connect_request host port }
            else err (
                refused (
                  codes "proxy rejected CONNECT to "
                  ++ (host
                      ++ (b':'
                          ∷ (decimal port
                              ++ (codes " with status: "
                                  ++ lossy_text (line_text version code r))))))))
  unfolding perform_http_connect
  perform_http_connect-opens host port code version r rest s pieces later v why small some_bytes e
        whole fits =
      let opened : Socket = record { reads = later; written = connect_request host port } in
      ap
        (λ x. x >>= λ (response, reads).
          check_response debug_text lossy_text host port response >>= λ _.
          ok record { reads = reads; written = connect_request host port })
        (read_response-pieces pieces [] s later some_bytes whole fits)
      ∙ ap (λ x. check_response debug_text lossy_text host port x >>= λ _. ok opened) e
      ∙ ap (λ x. x >>= λ _. ok opened)
          (check_response-line host port code version r rest v why small)
      ∙ elim (Bool-cases (code == 200)) [ inl h ↦ rw h refl | inr h ↦ rw h refl ]
