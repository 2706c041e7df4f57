-- ===== src/H2/Frame.antt =====
-- src/h2/frame.rs: the frame builders. A builder that trips the assertion on the payload's length
-- has no value: `none` is the panic. A `u8`, `u16` or `u32` argument is a number, and what the code
-- masks or shifts is written out.
pub mod Parse
pub mod Raw
pub mod Receive
pub mod Payloads
use blasthttp.Common.{
  ℕ, ◌/◌, ◌%◌, ◌^◌, bit_and, bit_or, Bool, true, false, if◌then◌else◌, ltb, Option, none, some,
  List, [], ◌∷◌, ◌++◌, length, replicate,
}
use blasthttp.Common.Bytes.{Bytes, be32}

abbrev pub preface : Bytes
preface =
    b'P' ∷ b'R' ∷ b'I' ∷ b' ' ∷ b'*' ∷ b' ' ∷ b'H' ∷ b'T' ∷ b'T' ∷ b'P' ∷ b'/' ∷ b'2' ∷ b'.' ∷ b'0'
    ∷ 13 ∷ 10 ∷ 13 ∷ 10 ∷ b'S' ∷ b'M' ∷ 13 ∷ 10 ∷ 13 ∷ 10 ∷ []

abbrev pub frame_data : ℕ
frame_data = 0x00

abbrev pub frame_headers : ℕ
frame_headers = 0x01

abbrev pub frame_priority : ℕ
frame_priority = 0x02

abbrev pub frame_rst_stream : ℕ
frame_rst_stream = 0x03

abbrev pub frame_settings : ℕ
frame_settings = 0x04

abbrev pub frame_ping : ℕ
frame_ping = 0x06

abbrev pub frame_goaway : ℕ
frame_goaway = 0x07

abbrev pub frame_window_update : ℕ
frame_window_update = 0x08

abbrev pub frame_continuation : ℕ
frame_continuation = 0x09

abbrev pub flag_end_stream : ℕ
flag_end_stream = 0x01

abbrev pub flag_ack : ℕ
flag_ack = 0x01

abbrev pub flag_end_headers : ℕ
flag_end_headers = 0x04

abbrev pub flag_padded : ℕ
flag_padded = 0x08

abbrev pub flag_priority : ℕ
flag_priority = 0x20

-- `as u8` is `% 256`.
unfoldable pub build_raw_frame : ℕ → ℕ → ℕ → Bytes → Option Bytes
build_raw_frame frame_type flags stream_id payload =
    let len = length payload in
    let sid = bit_and stream_id 0x7fff_ffff in
    if ltb len (2 ^ 24)
    then some (
        bit_and (len / 2 ^ 16) 0xff % 256
        ∷ bit_and (len / 2 ^ 8) 0xff % 256
        ∷ bit_and len 0xff % 256
        ∷ frame_type
        ∷ flags
        ∷ bit_and (sid / 2 ^ 24) 0xff % 256
        ∷ bit_and (sid / 2 ^ 16) 0xff % 256
        ∷ bit_and (sid / 2 ^ 8) 0xff % 256
        ∷ bit_and sid 0xff % 256
        ∷ payload)
    else none

-- The payload of a SETTINGS frame: six bytes for each (id, value).
unfoldable pub settings_payload : List (ℕ × ℕ) → Bytes
settings_payload [] = []
settings_payload ((id, val) ∷ rest) = id / 2 ^ 8 % 256 ∷ id % 256 ∷ be32 val (settings_payload rest)

unfoldable pub build_settings_frame : List (ℕ × ℕ) → Bool → Option Bytes
build_settings_frame settings ack =
    build_raw_frame frame_settings (if ack then flag_ack else 0) 0 (settings_payload settings)

-- The legacy priority of a stream: (dep_stream, weight, exclusive).
abbrev pub Priority : Type 0
Priority = ℕ × ℕ × Bool

pub record HeadersFrameOpts : Type 0 where
  pub header_block : Bytes
  pub stream_id : ℕ
  pub end_stream : Bool
  pub end_headers : Bool
  pub padding : ℕ
  pub priority : Option Priority

-- The five bytes of a PRIORITY field, shared by HEADERS and PRIORITY frames.
unfoldable pub priority_field : ℕ → ℕ → Bool → Bytes → Bytes
priority_field dep weight exclusive rest =
    let dep_word = bit_and dep 0x7fff_ffff in
    be32 (if exclusive then bit_or dep_word 0x8000_0000 else dep_word) (weight ∷ rest)

unfoldable pub priority_prefix : Option Priority → Bytes → Bytes
priority_prefix none rest = rest
priority_prefix (some (dep, weight, exclusive)) rest = priority_field dep weight exclusive rest

-- PAD_LENGTH in front of a padded payload.
unfoldable pub pad_prefix : ℕ → Bytes → Bytes
pad_prefix padding rest = if ltb 0 padding then padding ∷ rest else rest

abbrev pub is_some {ℓ} : {A : Type ℓ} → Option A → Bool
is_some none = false
is_some (some _) = true

-- `if test { flags |= flag; }`
abbrev pub set_flag : Bool → ℕ → ℕ → ℕ
set_flag test flag flags = if test then bit_or flags flag else flags

unfoldable pub headers_flags : HeadersFrameOpts → ℕ
headers_flags opts =
    let flags = set_flag opts.end_stream flag_end_stream 0 in
    let flags' = set_flag opts.end_headers flag_end_headers flags in
    let flags'' = set_flag (ltb 0 opts.padding) flag_padded flags' in
    set_flag (is_some opts.priority) flag_priority flags''

unfoldable pub headers_payload : HeadersFrameOpts → Bytes
headers_payload opts =
    pad_prefix opts.padding
      (priority_prefix opts.priority (opts.header_block ++ replicate opts.padding 0))

unfoldable pub build_headers_frame : HeadersFrameOpts → Option Bytes
build_headers_frame opts =
    build_raw_frame frame_headers (headers_flags opts) opts.stream_id (headers_payload opts)

unfoldable pub build_continuation_frame : Bytes → ℕ → Bool → Option Bytes
build_continuation_frame header_block stream_id end_headers =
    build_raw_frame frame_continuation (if end_headers then flag_end_headers else 0) stream_id
      header_block

unfoldable pub data_flags : Bool → ℕ → ℕ
data_flags end_stream padding =
    set_flag (ltb 0 padding) flag_padded (set_flag end_stream flag_end_stream 0)

unfoldable pub build_data_frame : Bytes → ℕ → Bool → ℕ → Option Bytes
build_data_frame data' stream_id end_stream padding =
    build_raw_frame frame_data (data_flags end_stream padding) stream_id
      (pad_prefix padding (data' ++ replicate padding 0))

pub build_window_update_frame : ℕ → ℕ → Option Bytes
build_window_update_frame increment stream_id =
    build_raw_frame frame_window_update 0 stream_id (be32 increment [])

pub build_ping_frame : Bytes → Bool → Option Bytes
build_ping_frame data' ack = build_raw_frame frame_ping (if ack then flag_ack else 0) 0 data'

pub build_rst_stream_frame : ℕ → ℕ → Option Bytes
build_rst_stream_frame stream_id error_code =
    build_raw_frame frame_rst_stream 0 stream_id (be32 error_code [])

unfoldable pub build_goaway_frame : ℕ → ℕ → Bytes → Option Bytes
build_goaway_frame last_stream_id error_code debug_data =
    build_raw_frame frame_goaway 0 0
      (be32 (bit_and last_stream_id 0x7fff_ffff) (be32 error_code debug_data))

pub build_priority_frame : ℕ → ℕ → ℕ → Bool → Option Bytes
build_priority_frame stream_id dep_stream weight exclusive =
    build_raw_frame frame_priority 0 stream_id (priority_field dep_stream weight exclusive [])
