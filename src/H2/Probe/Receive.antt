-- ===== src/H2/Probe/Receive.antt =====
-- A server's reading of a request (RFC 9113 §4.3, §6.10), and what it gets from a probe.
use blasthttp.Common.{
  ℕ, zero, suc, ◌%◌, ◌^◌, min, ◌≡◌, refl, sym, ap, ◌∙◌, Bool, true, false, inl, inr, Bool-cases,
  if◌then◌else◌, ◌==◌, Option, none, some, [], ◌∷◌, ◌++◌, append_assoc, append-nil, length, take,
  take-append-drop, drop, arith, some_inj,
}
use blasthttp.Common.Bytes.{Bytes}
use blasthttp.H2.Frame.{
  frame_headers, frame_continuation, flag_end_headers, flag_end_stream, Priority,
  build_continuation_frame, HeadersFrameOpts,
}
use blasthttp.H2.Frame.Parse.{Frame, parse_frame, has_flag, header_fields}
use blasthttp.H2.Frame.Payloads.{seen_priority}
use blasthttp.H2.Frame.Raw.{parse_frame-build_raw_frame}
use blasthttp.H2.Frame.Receive.{Receives, IsHeadersOf, build_headers_frame-received}
use blasthttp.H2.Hpack.Encoder.{is_empty}
use blasthttp.H2.Probe.{ProbeOpts, extend, end_stream_on_headers, headers_frame, headers_bytes}

pub record Request : Type 0 where
  pub stream_id : ℕ
  pub end_stream : Bool
  pub priority : Option Priority
  pub header_block : Bytes

-- CONTINUATION frames, until one has END_HEADERS. A frame has nine bytes at least.
collect : ℕ → Bytes → Bytes → Option (Bytes × Bytes)
collect zero block bytes = none
collect (suc fuel) block bytes = elim (parse_frame bytes) [
  | none ↦ none
  | some (f, rest) ↦
      let more = collect fuel (block ++ f.payload) rest in
      if f.frame_type == frame_continuation
      then (if has_flag f.flags flag_end_headers then some (block ++ f.payload, rest) else more)
      else none
]

abbrev with_block : Frame → Option Priority → Option (Bytes × Bytes) → Option (Request × Bytes)
with_block f priority none = none
with_block f priority (some (block, rest)) = some (
  record {
    stream_id = f.stream_id;
    end_stream = has_flag f.flags flag_end_stream;
    priority = priority;
    header_block = block;
  },
  rest,
)

abbrev read_headers : Frame → Bytes → Option (Option Priority × Bytes) → Option (Request × Bytes)
read_headers f rest none = none
read_headers f rest (some (priority, fragment)) = with_block f priority (
    if has_flag f.flags flag_end_headers
    then some (fragment, rest)
    else collect (suc (length rest)) fragment rest)

abbrev read_frames : Option (Frame × Bytes) → Option (Request × Bytes)
read_frames none = none
read_frames (some (f, rest)) =
    if f.frame_type == frame_headers then read_headers f rest (header_fields f) else none

-- The request whose HEADERS frame stands first, and the bytes behind its header block.
pub receive_request : Bytes → Option (Request × Bytes)
receive_request bytes = read_frames (parse_frame bytes)

unfoldable pub request_of : ProbeOpts → Bytes → Request
request_of opts block = record {
  stream_id = opts.stream_id % 2 ^ 31;
  end_stream = end_stream_on_headers opts;
  priority = seen_priority opts.priority;
  header_block = block;
}

seen_by : HeadersFrameOpts → Bytes → Request
seen_by o block = record {
  stream_id = o.stream_id % 2 ^ 31;
  end_stream = o.end_stream;
  priority = seen_priority o.priority;
  header_block = block;
}

abbrev whole : HeadersFrameOpts → Option (Bytes × Bytes) → Option (Request × Bytes)
whole o none = none
whole o (some (block, rest)) = some (seen_by o block, rest)

with_block-whole :
    (o : HeadersFrameOpts) (f : Frame) (b : Option (Bytes × Bytes))
    → IsHeadersOf o f
    → with_block f (seen_priority o.priority) b ≡ whole o b
unfolding seen_by
with_block-whole o f none h = refl
with_block-whole o f (some (block, rest)) h = rw (h.stream_ok, h.end_stream_ok) refl

receive_request-whole :
    (o : HeadersFrameOpts) (bytes rest : Bytes)
    → Receives bytes rest (IsHeadersOf o)
    → receive_request bytes
      ≡ whole o (
          if o.end_headers
          then some (o.header_block, rest)
          else collect (suc (length rest)) o.header_block rest)
unfolding receive_request
receive_request-whole o bytes rest r =
    let f : Frame = r.frame in
    let h : IsHeadersOf o f = r.holds in
    let is_headers : (f.frame_type == frame_headers) ≡ true = ground (arith, h.type_ok) in
    ap read_frames r.parsed
    ∙ rw (is_headers, h.fields_ok, h.end_headers_ok) (with_block-whole o f _ h)

-- A CONTINUATION frame that ends the block.
collect-build_continuation_frame :
    (stream_id fuel : ℕ) (block more rest : Bytes) {out : Bytes}
    → build_continuation_frame more stream_id true ≡ some out
    → collect (suc fuel) block (out ++ rest) ≡ some (block ++ more, rest)
unfolding build_continuation_frame collect
collect-build_continuation_frame stream_id fuel block more rest {out} h =
    rw
      (
        parse_frame-build_raw_frame frame_continuation flag_end_headers stream_id more rest h,
        collect,
      )
      refl

-- Both parts of what was put together.
pub extend-eq-some :
    (a b : Option Bytes) {out : Bytes}
    → extend a b ≡ some out
    → (x : Bytes) × (y : Bytes) × (a ≡ some x) × (b ≡ some y) × (out ≡ x ++ y)
extend-eq-some none b h = absurd cc
extend-eq-some (some x) none h = absurd cc
extend-eq-some (some x) (some y) h = (x, y, refl, refl, sym (some_inj h))

is_empty-nil : (l : Bytes) → is_empty l ≡ true → l ≡ []
is_empty-nil [] h = refl
is_empty-nil (x ∷ l) h = absurd cc

frame_opts : ProbeOpts → Bytes → Bool → HeadersFrameOpts
frame_opts opts block end_headers = record {
  header_block = block;
  stream_id = opts.stream_id;
  end_stream = end_stream_on_headers opts;
  end_headers = end_headers;
  padding = opts.pad_headers;
  priority = opts.priority;
}

one_frame :
    (opts : ProbeOpts) (block rest : Bytes) {out : Bytes}
    → headers_frame opts block true ≡ some out
    → receive_request (out ++ rest) ≡ some (request_of opts block, rest)
unfolding seen_by frame_opts request_of
one_frame opts block rest h =
    receive_request-whole (frame_opts opts block true) _ rest
      (build_headers_frame-received (frame_opts opts block true) rest h)

two_frames :
    (opts : ProbeOpts) (first more rest : Bytes) {x y : Bytes}
    → headers_frame opts first false ≡ some x
    → build_continuation_frame more opts.stream_id true ≡ some y
    → receive_request ((x ++ y) ++ rest) ≡ some (request_of opts (first ++ more), rest)
unfolding seen_by frame_opts request_of
two_frames opts first more rest {x} {y} h k =
    let o : HeadersFrameOpts = frame_opts opts first false in
    ap receive_request (append_assoc x y rest)
    ∙ receive_request-whole o _ (y ++ rest) (build_headers_frame-received o (y ++ rest) h)
    ∙ ap (whole o)
        (collect-build_continuation_frame opts.stream_id (length (y ++ rest)) first more rest k)

-- However the header block is split, the receiver puts it together again.
pub headers_bytes-received :
    (opts : ProbeOpts) (block rest : Bytes) (split : Option ℕ) {out : Bytes}
    → headers_bytes opts block split ≡ some out
    → receive_request (out ++ rest) ≡ some (request_of opts block, rest)
headers_bytes-received opts block rest none h = one_frame opts block rest h
headers_bytes-received opts block rest (some after) {out} h =
    let at : ℕ = min after (length block) in
    let joined : take at block ++ drop at block ≡ block = take-append-drop at block in
    elim (Bool-cases (is_empty (drop at block))) [
      | inl empty ↦
          let (x, y, hx, hy, same) =
            extend-eq-some (headers_frame opts (take at block) true) (some []) {out = out}
              (rw empty at h) in
          let all_first : take at block ≡ block =
            sym (append-nil (take at block))
            ∙ ap (λ r. take at block ++ r) (sym (is_empty-nil _ empty))
            ∙ joined in
          let no_more : out ≡ x = same ∙ ap (λ y. x ++ y) (sym (some_inj hy)) ∙ append-nil x in
          ap (λ (l : Bytes). receive_request (l ++ rest)) no_more
          ∙ one_frame opts (take at block) rest hx
          ∙ ap (λ b. some (request_of opts b, rest)) all_first
      | inr some_left ↦
          let (x, y, hx, hy, same) =
            extend-eq-some (headers_frame opts (take at block) false)
              (build_continuation_frame (drop at block) opts.stream_id true) {out = out}
              (rw some_left at h) in
          ap (λ (l : Bytes). receive_request (l ++ rest)) same
          ∙ two_frames opts (take at block) (drop at block) rest hx hy
          ∙ ap (λ b. some (request_of opts b, rest)) joined
    ]
