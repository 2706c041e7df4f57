-- ===== src/H2/Probe.antt =====
-- src/h2/probe.rs: `build_probe`, one request as bytes. `none` is the panic of a frame builder.
pub mod Receive
pub mod Delivery
use blasthttp.Common.{
  ℕ, min, Bool, true, false, not, if◌then◌else◌, Option, none, some, List, [], ◌++◌, length, take,
  drop,
}
use blasthttp.Common.Bytes.{Bytes}
use blasthttp.Common.Result.{Result, ok, ◌>>=◌}
use blasthttp.H2.Frame.{
  preface, Priority, is_some, build_headers_frame, build_continuation_frame, build_data_frame,
  build_settings_frame,
}
use blasthttp.H2.Header.{Header}
use blasthttp.H2.Hpack.Encoder.{EncodeError, is_empty, encode_headers}

pub record ProbeOpts : Type 0 where
  pub send_preface : Bool
  pub preface_override : Option Bytes
  pub settings : Option (List (ℕ × ℕ))
  pub stream_id : ℕ
  pub body : Option Bytes
  pub split_headers_after : Option ℕ
  pub pad_headers : ℕ
  pub pad_data : ℕ
  pub priority : Option Priority
  pub force_no_end_stream_on_headers : Bool
  pub extra_frames_before_headers : Bytes
  pub extra_frames_after : Bytes

-- `ProbeOpts::default`
abbrev pub default_opts : ProbeOpts
default_opts = record {
  send_preface = true;
  preface_override = none;
  settings = some [];
  stream_id = 1;
  body = none;
  split_headers_after = none;
  pad_headers = 0;
  pad_data = 0;
  priority = none;
  force_no_end_stream_on_headers = false;
  extra_frames_before_headers = [];
  extra_frames_after = [];
}

-- `out.extend_from_slice(&frame)`, where either may have panicked.
abbrev pub extend : Option Bytes → Option Bytes → Option Bytes
extend none frame = none
extend (some out) none = none
extend (some out) (some frame) = some (out ++ frame)

abbrev pub chosen_preface : Option Bytes → Bytes
chosen_preface none = preface
chosen_preface (some p) = p

abbrev pub preface_bytes : ProbeOpts → Bytes
preface_bytes opts = if opts.send_preface then chosen_preface opts.preface_override else []

abbrev pub settings_bytes : Option (List (ℕ × ℕ)) → Option Bytes
settings_bytes none = some []
settings_bytes (some settings) = build_settings_frame settings false

abbrev pub end_stream_on_headers : ProbeOpts → Bool
end_stream_on_headers opts =
    let has_body = is_some opts.body in
    if opts.force_no_end_stream_on_headers then false else not has_body

abbrev pub headers_frame : ProbeOpts → Bytes → Bool → Option Bytes
headers_frame opts block end_headers = build_headers_frame (record {
  header_block = block;
  stream_id = opts.stream_id;
  end_stream = end_stream_on_headers opts;
  end_headers = end_headers;
  padding = opts.pad_headers;
  priority = opts.priority;
})

-- HEADERS, with a CONTINUATION for the bytes behind the split, if there are any.
abbrev pub headers_bytes : ProbeOpts → Bytes → Option ℕ → Option Bytes
headers_bytes opts header_block none = headers_frame opts header_block true
headers_bytes opts header_block (some split_after) =
    let split = min split_after (length header_block) in
    let first = take split header_block in
    let rest = drop split header_block in
    let more_coming = not (is_empty rest) in
    extend (headers_frame opts first (not more_coming))
      (if more_coming then build_continuation_frame rest opts.stream_id true else some [])

abbrev pub body_bytes : ProbeOpts → Option Bytes → Option Bytes
body_bytes opts none = some []
body_bytes opts (some body) = build_data_frame body opts.stream_id true opts.pad_data

unfoldable pub assemble : ProbeOpts → Bytes → Option Bytes
assemble opts header_block =
    let out = extend (some (preface_bytes opts)) (settings_bytes opts.settings) in
    let out' = extend out (some opts.extra_frames_before_headers) in
    let out'' = extend out' (headers_bytes opts header_block opts.split_headers_after) in
    let out''' = extend out'' (body_bytes opts opts.body) in
    extend out''' (some opts.extra_frames_after)

unfoldable pub build_probe : List Header → ProbeOpts → Result EncodeError (Option Bytes)
build_probe headers opts =
    encode_headers headers >>= λ header_block. ok (assemble opts header_block)
