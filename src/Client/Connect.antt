-- ===== src/Client/Connect.antt =====
-- `perform_http_connect` of src/client/proxy.rs. The socket is the outcomes of the reads that are to
-- come, each the bytes that have arrived or the text of a failure, and what the client has written. A
-- read takes what has arrived and fits; one of no bytes is the end of the stream. How bytes are shown
-- in a message is a parameter.
use blasthttp.Common.{
  ℕ, suc, ◌-◌, ◌^◌, Bool, ◌||◌, if◌then◌else◌, leb, ◌==◌, Option, none, some, List, [], ◌∷◌, ◌++◌,
  length, take, drop,
}
use blasthttp.Common.Bytes.{Bytes, codes}
use blasthttp.Common.Integer.{parse_unsigned}
use blasthttp.Common.Maybe.{get_or_else, is_some}
use blasthttp.Common.Result.{Result, ok, err, ◌>>=◌}
use blasthttp.Common.Search.{position}
use blasthttp.Common.Text.{is_nil, starts_with, split_once, split_first}
use blasthttp.Client.Error.{ClientError, error_of, decimal, connection}

pub record Socket : Type 0 where
  pub reads : List (Result Bytes Bytes)
  pub written : Bytes

-- What the proxy sends until the stream ends or fails.
abbrev pub stream : List (Result Bytes Bytes) → Bytes
stream [] = []
stream (err e ∷ reads) = []
stream (ok [] ∷ reads) = []
stream (ok (b ∷ arrived) ∷ reads) = (b ∷ arrived) ++ stream reads

abbrev pub blank_line : Bytes
blank_line = codes "\r\n\r\n"

unfoldable pub find_crlf_crlf : Bytes → Option ℕ
find_crlf_crlf [] = none
find_crlf_crlf (b ∷ buf) =
    if starts_with (b ∷ buf) blank_line
    then some 0
    else elim (find_crlf_crlf buf) [ none ↦ none | some i ↦ some (suc i) ]

abbrev pub connect_request : Bytes → ℕ → Bytes
connect_request host port =
    let target = host ++ (b':' ∷ decimal port) in
    codes "CONNECT " ++ (target ++ (codes " HTTP/1.1\r\nHost: " ++ (target ++ codes "\r\n\r\n")))

abbrev pub buffer_size : ℕ
buffer_size = 8192

abbrev pub refused : Bytes → ClientError
refused message = error_of connection message

-- What a read leaves of what has arrived.
abbrev pub unread : Bytes → List (Result Bytes Bytes) → List (Result Bytes Bytes)
unread leftover reads = if is_nil leftover then reads else ok leftover ∷ reads

-- The loop. When something is left after a read the buffer is full, so the next round reads nothing.
unfoldable pub read_response :
    Bytes → List (Result Bytes Bytes) → Result ClientError (Bytes × List (Result Bytes Bytes))
read_response buf [] =
    if leb buffer_size (length buf)
    then err (refused (codes "proxy CONNECT response exceeded 8KB"))
    else err (refused (codes "proxy closed connection during CONNECT"))
read_response buf (err e ∷ reads) =
    if leb buffer_size (length buf)
    then err (refused (codes "proxy CONNECT response exceeded 8KB"))
    else err (refused (codes "proxy CONNECT read failed: " ++ e))
read_response buf (ok arrived ∷ reads) =
    let room = buffer_size - length buf in
    let filled = buf ++ take room arrived in
    let next_round = read_response filled reads in
    if leb buffer_size (length buf)
    then err (refused (codes "proxy CONNECT response exceeded 8KB"))
    else if is_nil arrived
    then err (refused (codes "proxy closed connection during CONNECT"))
    else if is_some (find_crlf_crlf filled)
    then ok (filled, unread (drop room arrived) reads)
    else next_round

abbrev pub ends_line : ℕ → Bool
ends_line b = b == 13 || b == 10

abbrev pub status_line : Bytes → Bytes
status_line response = take (get_or_else (position ends_line response) (length response)) response

module _ (debug_text lossy_text : Bytes → Bytes) where
  abbrev pub check_code : Bytes → ℕ → Bytes → Bytes → Option ℕ → Result ClientError Unit
  check_code host port line text none =
      err (refused (codes "proxy returned unparseable status code: " ++ debug_text text))
  check_code host port line text (some code) =
      if code == 200
      then ok tt
      else err (
          refused (
            codes "proxy rejected CONNECT to "
            ++ (host ++ (b':' ∷ (decimal port ++ (codes " with status: " ++ lossy_text line))))))

  -- The second of the parts between spaces is the status code.
  abbrev pub check_line : Bytes → ℕ → Bytes → Option (Bytes × Bytes) → Result ClientError Unit
  check_line host port line none =
      err (refused (codes "proxy returned malformed CONNECT response: " ++ debug_text line))
  check_line host port line (some (version, rest)) =
      let text = (split_first b' ' rest).0 in
      check_code host port line text (parse_unsigned (2 ^ 16 - 1) text)

  abbrev pub check_response : Bytes → ℕ → Bytes → Result ClientError Unit
  check_response host port response =
      let line = status_line response in check_line host port line (split_once b' ' line)

  -- The first argument is the failure of the write, if it fails.
  unfoldable pub perform_http_connect :
      Option Bytes → Bytes → ℕ → Socket → Result ClientError Socket
  perform_http_connect (some e) host port tcp =
      err (refused (codes "proxy CONNECT write failed: " ++ e))
  perform_http_connect none host port tcp = read_response [] tcp.reads >>= λ (response, reads).
      check_response host port response >>= λ _.
      ok record { reads = reads; written = tcp.written ++ connect_request host port }
