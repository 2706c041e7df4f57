-- ===== src/H2/Frame/Receive.antt =====
-- What a receiver gets from each typed builder.
use blasthttp.Common.{
  bit_and, ℕ, ◌%◌, ◌^◌, ◌<◌, ◌≡◌, refl, some, List, ◌++◌, arith, Bool, All, if◌then◌else◌,
}
use blasthttp.Common.Bits.{bit_and_mask}
use blasthttp.Common.Bytes.{be32, Bytes, IsU32}
use blasthttp.H2.Frame.{
  build_goaway_frame, frame_goaway, HeadersFrameOpts, build_headers_frame, build_settings_frame,
  build_data_frame, settings_payload, flag_end_stream, flag_end_headers, flag_ack, frame_headers,
  frame_data, frame_settings, headers_flags, headers_payload, data_flags,
}
use blasthttp.H2.Frame.Parse.{
  read_word, Frame, has_flag, parse_frame, header_fields, data_bytes, parse_settings,
}
use blasthttp.H2.Frame.Raw.{parse_frame-build_raw_frame}
use blasthttp.H2.Frame.Payloads.{
  seen_priority, header_fields-headers_payload, read_word-be32, strip_padding-pad_prefix,
  parse_settings-settings_payload, headers_flags_read, data_flags_read,
}

-- The frame that stands at the front of some bytes has a property.
pub record Receives (bytes rest : Bytes) (P : Frame → Type 0) : Type 0 where
  pub frame : Frame
  pub parsed : parse_frame bytes ≡ some (frame, rest)
  pub holds : P frame

-- What the receiver of a HEADERS frame sees of the builder's options.
pub record IsHeadersOf (opts : HeadersFrameOpts) (f : Frame) : Type 0 where
  pub type_ok : f.frame_type ≡ frame_headers
  pub stream_ok : f.stream_id ≡ opts.stream_id % 2 ^ 31
  pub end_stream_ok : has_flag f.flags flag_end_stream ≡ opts.end_stream
  pub end_headers_ok : has_flag f.flags flag_end_headers ≡ opts.end_headers
  pub fields_ok : header_fields f ≡ some (seen_priority opts.priority, opts.header_block)

-- Whatever the padding and the priority, the receiver of a HEADERS frame that was built gets its
-- header block, its priority without the reserved bit, both flags and the stream.
pub build_headers_frame-received :
    (opts : HeadersFrameOpts) (rest : Bytes) {out : Bytes}
    → build_headers_frame opts ≡ some out
    → Receives (out ++ rest) rest (IsHeadersOf opts)
unfolding build_headers_frame
build_headers_frame-received opts rest h = record {
  frame = record {
    frame_type = frame_headers;
    flags = headers_flags opts;
    stream_id = opts.stream_id % 2 ^ 31;
    payload = headers_payload opts;
  };
  parsed = parse_frame-build_raw_frame frame_headers (headers_flags opts) opts.stream_id _ rest h;
  holds = record {
    type_ok = refl;
    stream_ok = refl;
    end_stream_ok = (headers_flags_read opts).0;
    end_headers_ok = (headers_flags_read opts).1;
    fields_ok = header_fields-headers_payload opts frame_headers (opts.stream_id % 2 ^ 31);
  };
}

-- The receiver of a DATA frame that was built gets the data, with the padding gone, the stream and
-- the END_STREAM flag.
pub build_data_frame-received :
    (data' : Bytes) (stream_id : ℕ) (end_stream : Bool) (padding : ℕ) (rest : Bytes) {out : Bytes}
    → build_data_frame data' stream_id end_stream padding ≡ some out
    → Receives (out ++ rest) rest λ f.
      (f.frame_type ≡ frame_data)
      × (f.stream_id ≡ stream_id % 2 ^ 31)
      × (has_flag f.flags flag_end_stream ≡ end_stream)
      × (data_bytes f ≡ some data')
unfolding build_data_frame data_bytes
build_data_frame-received data' stream_id end_stream padding rest h = record {
  frame = record {
    frame_type = frame_data;
    flags = data_flags end_stream padding;
    stream_id = stream_id % 2 ^ 31;
    payload = _;
  };
  parsed = parse_frame-build_raw_frame frame_data _ stream_id _ rest h;
  holds = (
    refl,
    refl,
    (data_flags_read end_stream padding).0,
    rw ((data_flags_read end_stream padding).1) (strip_padding-pad_prefix padding data'),
  );
}

-- The receiver of a SETTINGS frame that was built from 16-bit identifiers and 32-bit values gets
-- the list of settings, on stream 0, with the ACK flag as asked.
build_settings_frame-received :
    (settings : List (ℕ × ℕ)) (ack : Bool) (rest : Bytes) {out : Bytes}
    → All (λ s. (s.0 < 2 ^ 16) × IsU32 s.1) settings
    → build_settings_frame settings ack ≡ some out
    → Receives (out ++ rest) rest λ f.
      (f.frame_type ≡ frame_settings)
      × (f.stream_id ≡ 0)
      × (has_flag f.flags flag_ack ≡ ack)
      × (parse_settings f.payload ≡ some settings)
unfolding build_settings_frame
build_settings_frame-received settings ack rest valid h = record {
  frame = record {
    frame_type = frame_settings;
    flags = if ack then flag_ack else 0;
    stream_id = 0;
    payload = settings_payload settings;
  };
  parsed = parse_frame-build_raw_frame frame_settings _ 0 _ rest h;
  holds = (refl, refl, ground arith, parse_settings-settings_payload settings valid);
}

-- The receiver of a GOAWAY frame that was built gets the 31-bit last stream identifier, the error
-- code and the debug data.
build_goaway_frame-received :
    (last_stream_id error_code : ℕ) (debug_data rest : Bytes) {out : Bytes}
    → IsU32 error_code
    → build_goaway_frame last_stream_id error_code debug_data ≡ some out
    → Receives (out ++ rest) rest λ f.
      (f.frame_type ≡ frame_goaway)
      × (f.stream_id ≡ 0)
      × (after : Bytes) × (read_word f.payload ≡ some (last_stream_id % 2 ^ 31, after))
      × (read_word after ≡ some (error_code, debug_data))
unfolding build_goaway_frame
build_goaway_frame-received last_stream_id error_code debug_data rest small h = record {
  frame = record {
    frame_type = frame_goaway;
    flags = 0;
    stream_id = 0;
    payload = be32 (bit_and last_stream_id 0x7fff_ffff) (be32 error_code debug_data);
  };
  parsed = parse_frame-build_raw_frame frame_goaway 0 0 _ rest h;
  holds = (
    refl,
    refl,
    be32 error_code debug_data,
    rw (bit_and_mask 31 last_stream_id) (read_word-be32 _ _ (omega arith)),
    read_word-be32 error_code debug_data small,
  );
}
