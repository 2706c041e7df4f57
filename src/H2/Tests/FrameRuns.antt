-- ===== src/H2/Tests/FrameRuns.antt =====
-- Frames at concrete inputs.
use blasthttp.Common.{ℕ, ◌≡◌, refl, true, false, some, List, [], ◌∷◌}
use blasthttp.Common.Bytes.{Bytes, codes}
use blasthttp.H2.Frame.{
  HeadersFrameOpts, headers_flags, headers_payload, pad_prefix, priority_prefix, priority_field,
  data_flags, settings_payload, build_raw_frame, build_headers_frame, build_data_frame,
  build_settings_frame, build_goaway_frame,
}

abbrev tail : Bytes
tail = 0 ∷ 0 ∷ 9 ∷ []

abbrev raw_bytes : Bytes
raw_bytes = 0 ∷ 0 ∷ 2 ∷ 0xfe ∷ 3 ∷ 0 ∷ 0 ∷ 1 ∷ 1 ∷ 7 ∷ 8 ∷ []

-- The reserved bit of the identifier is cleared.
raw_built : build_raw_frame 0xfe 3 0x8000_0101 (7 ∷ 8 ∷ []) ≡ some raw_bytes
unfolding build_raw_frame
raw_built = refl

abbrev headers_opts : HeadersFrameOpts
headers_opts = record {
  header_block = 0x82 ∷ 0x84 ∷ [];
  stream_id = 1;
  end_stream = true;
  end_headers = false;
  padding = 2;
  priority = some (3, 200, true);
}

abbrev headers_bytes : Bytes
headers_bytes =
    0 ∷ 0 ∷ 10 ∷ 1 ∷ 0x29 ∷ 0 ∷ 0 ∷ 0 ∷ 1 ∷ 2 ∷ 0x80 ∷ 0 ∷ 0 ∷ 3 ∷ 200 ∷ 0x82 ∷ 0x84 ∷ 0 ∷ 0 ∷ []

headers_built : build_headers_frame headers_opts ≡ some headers_bytes
unfolding build_headers_frame build_raw_frame headers_flags headers_payload pad_prefix
    priority_prefix priority_field
headers_built = refl

abbrev data_frame : Bytes
data_frame = 0 ∷ 0 ∷ 6 ∷ 0 ∷ 9 ∷ 0 ∷ 0 ∷ 0 ∷ 1 ∷ 3 ∷ b'o' ∷ b'k' ∷ 0 ∷ 0 ∷ 0 ∷ []

data_built : build_data_frame (codes "ok") 1 true 3 ≡ some data_frame
unfolding build_data_frame build_raw_frame data_flags pad_prefix
data_built = refl

abbrev settings_list : List (ℕ × ℕ)
settings_list = (1, 0) ∷ (4, 0x10000) ∷ []

abbrev settings_frame : Bytes
settings_frame =
    0 ∷ 0 ∷ 12 ∷ 4 ∷ 0 ∷ 0 ∷ 0 ∷ 0 ∷ 0 ∷ 0 ∷ 1 ∷ 0 ∷ 0 ∷ 0 ∷ 0 ∷ 0 ∷ 4 ∷ 0 ∷ 1 ∷ 0 ∷ 0 ∷ []

settings_built : build_settings_frame settings_list false ≡ some settings_frame
unfolding build_settings_frame build_raw_frame settings_payload
settings_built = refl

abbrev goaway_frame : Bytes
goaway_frame = 0 ∷ 0 ∷ 9 ∷ 7 ∷ 0 ∷ 0 ∷ 0 ∷ 0 ∷ 0 ∷ 0 ∷ 0 ∷ 0 ∷ 5 ∷ 0 ∷ 0 ∷ 0 ∷ 2 ∷ b'x' ∷ []

goaway_built : build_goaway_frame 5 2 (codes "x") ≡ some goaway_frame
unfolding build_goaway_frame build_raw_frame
goaway_built = refl
