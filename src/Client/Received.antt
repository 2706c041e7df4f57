-- ===== src/Client/Received.antt =====
-- What `parse_response` of src/client/hyper.rs makes of a body, whatever its frames and its codings.
use blasthttp.Common.{
  ℕ, ◌≤◌, ◌≡◌, ◌⊎◌, Bool, inl, inr, refl, ap, ◌∙◌, true, false, Bool-cases, Option-cases, ltb,
  Option, some, ◌++◌, length, take, length-take, arith,
}
use blasthttp.Common.Bytes.{Bytes, codes}
use blasthttp.Common.Result.{ok, err, ◌>>=◌}
use blasthttp.Common.Text.{is_nil}
use blasthttp.Client.Answer.{
  HyperResponse, content_encoding, decoded_body, single_response, parse_response,
}
use blasthttp.Client.Body.{data_of, error_in, read_body_lem}
use blasthttp.Client.Error.{error_of, connection}
use blasthttp.Client.Inflate.{Decoder}
use blasthttp.Client.Layers.{decompress_bounded}
use blasthttp.Client.Redirect.{SingleResponse}
use blasthttp.Config.Request.{RequestConfig, max_body}

module _ (to_str : Bytes → Option Bytes) (decoder : Decoder → Bytes → Bytes × Option Bytes)
    (config : RequestConfig) (response : HyperResponse) where
  abbrev parsed : Bytes × Bool → SingleResponse
  parsed raw = single_response to_str decoder response (
      decoded_body to_str decoder (content_encoding to_str decoder response.headers)
        (max_body config) raw)

  decoded_bounded :
      (encoding raw : Bytes) (cut : Bool) (max : ℕ)
      → length raw ≤ max
      → length (decoded_body to_str decoder encoding max (raw, cut)).0 ≤ max
  decoded_bounded encoding raw cut max h = elim (Bool-cases (is_nil encoding)) [
    | inl e ↦ rw e h
    | inr e ↦ rw e (decompress_bounded decoder max encoding raw h)
  ]

  -- An error, or a response.
  abbrev pub Outcome : Type 0
  Outcome =
      ((e : Bytes) × (error_in response.frames ≡ some e)
        × (length (data_of response.frames) ≤ max_body config)
        × (parse_response to_str decoder config response
            ≡ err (error_of connection (codes "failed to read body: " ++ e))))
      ⊎ ((r : SingleResponse) × (parse_response to_str decoder config response ≡ ok r)
          × (r.status ≡ response.status)
          × (length r.body_bytes ≤ max_body config))

  -- A response is an error only when its body breaks off within the bound, and then it is one of the
  -- kind connection; otherwise it keeps its status, and its body, decoded or not, has at most as many
  -- bytes as the settings allow.
  pub parse_response-Outcome : Outcome
  unfolding parse_response
  parse_response-Outcome =
      let all_data = data_of response.frames in
      let read = read_body_lem (max_body config) response.frames in
      elim (Bool-cases (ltb (max_body config) (length all_data))) [
        | inl long ↦
            let raw = take (max_body config) all_data in
            let fits : length raw ≤ max_body config =
              omega (arith, length-take (max_body config) all_data) in
            inr (
              parsed (raw, true),
              ap (λ r. r >>= λ raw. ok (parsed raw)) read ∙ rw long refl,
              refl,
              decoded_bounded (content_encoding to_str decoder response.headers) raw true
                  (max_body config) fits,
            )
        | inr short ↦
            let fits : length all_data ≤ max_body config = ground arith in
            elim (Option-cases (error_in response.frames)) [
              | inl whole ↦ inr (
                parsed (all_data, false),
                ap (λ r. r >>= λ raw. ok (parsed raw)) read ∙ rw (short, whole) refl,
                refl,
                decoded_bounded (content_encoding to_str decoder response.headers) all_data false
                    (max_body config) fits,
              )
              | inr (e, broken) ↦ inl (
                e,
                broken,
                fits,
                ap (λ r. r >>= λ raw. ok (parsed raw)) read ∙ rw (short, broken) refl,
              )
            ]
      ]
