-- ===== src/Client/Answer.antt =====
-- `parse_response` of src/client/hyper.rs. `HeaderValue::to_str`, which refuses what is no text, and the
-- decoders are parameters; the headers come in the order in which the map of hyper gives them, their
-- names in lower case. The debug log is left out.
use blasthttp.Common.{ℕ, Bool, if◌then◌else◌, Option, none, some, List, [], ◌∷◌, ◌++◌, map}
use blasthttp.Common.Bytes.{Bytes, codes}
use blasthttp.Common.Maybe.{get_or_else}
use blasthttp.Common.Result.{Result, ok, ◌>>=◌}
use blasthttp.Common.Text.{same, is_nil, join}
use blasthttp.Client.Body.{Frame, read_body}
use blasthttp.Client.Error.{ClientError}
use blasthttp.Client.Inflate.{Decoder, decompress}
use blasthttp.Client.Redirect.{SingleResponse}
use blasthttp.Config.Request.{RequestConfig, max_body}
use blasthttp.Config.Suffix.{to_lower}

pub record HyperResponse : Type 0 where
  pub status : ℕ
  pub headers : List (Bytes × Bytes)
  pub frames : List Frame

-- `HeaderMap::get` and `HeaderMap::get_all`
abbrev pub get_header : Bytes → List (Bytes × Bytes) → Option Bytes
get_header name [] = none
get_header name ((n, v) ∷ headers) =
    let rest = get_header name headers in if same n name then some v else rest

abbrev pub get_all : Bytes → List (Bytes × Bytes) → List Bytes
get_all name [] = []
get_all name ((n, v) ∷ headers) =
    let rest = get_all name headers in if same n name then v ∷ rest else rest

module _ (to_str : Bytes → Option Bytes) (decoder : Decoder → Bytes → Bytes × Option Bytes) where
  abbrev pub location_of : List (Bytes × Bytes) → Option Bytes
  location_of headers = elim (get_header (codes "location") headers) [
    | none ↦ none
    | some v ↦ to_str v
  ]

  abbrev pub shown : Bytes → Bytes → Bytes
  shown fallback v = get_or_else (to_str v) fallback

  abbrev pub shown_headers : List (Bytes × Bytes) → List (Bytes × Bytes)
  shown_headers [] = []
  shown_headers ((n, v) ∷ headers) = (n, shown (codes "<binary>") v) ∷ shown_headers headers

  -- Repeated lines are one list.
  abbrev pub content_encoding : List (Bytes × Bytes) → Bytes
  content_encoding headers = map to_lower (
      join (codes ",")
        (map (shown (codes "<unreadable>")) (get_all (codes "content-encoding") headers)))

  abbrev pub cause_of : Bool → Option Bytes → Option Bytes
  cause_of cut_by_cap none = none
  cause_of cut_by_cap (some reason) =
      some
        (if cut_by_cap then reason ++ codes " (body hit the max_body cap mid-stream)" else reason)

  abbrev pub decoded_body : Bytes → ℕ → Bytes × Bool → Bytes × Option Bytes
  decoded_body encoding max (raw_bytes, cut_by_cap) =
      let decoded = decompress decoder max encoding raw_bytes in
      if is_nil encoding
      then (raw_bytes, none)
      else (decoded.body, cause_of cut_by_cap decoded.decode_error)

  abbrev pub single_response : HyperResponse → Bytes × Option Bytes → SingleResponse
  single_response response (body_bytes, decode_error) = record {
    status = response.status;
    headers = shown_headers response.headers;
    body_bytes = body_bytes;
    location = location_of response.headers;
    decode_error = decode_error;
  }

  unfoldable pub parse_response : RequestConfig → HyperResponse → Result ClientError SingleResponse
  parse_response config response = read_body (max_body config) response.frames [] >>= λ raw. ok (
      single_response response
        (decoded_body (content_encoding response.headers) (max_body config) raw))
