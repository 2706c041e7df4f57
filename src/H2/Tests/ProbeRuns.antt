-- ===== src/H2/Tests/ProbeRuns.antt =====
-- A probe at concrete options.
use blasthttp.Common.{◌≡◌, refl, ap, ◌∙◌, [], ◌∷◌, ◌++◌, map, some}
use blasthttp.Common.Bytes.{Bytes, codes}
use blasthttp.Common.Result.{ok, ◌>>=◌}
use blasthttp.H2.Frame.{
  preface, build_raw_frame, build_headers_frame, build_continuation_frame, build_data_frame,
  build_settings_frame, headers_flags, headers_payload, pad_prefix, priority_prefix, data_flags,
  settings_payload,
}
use blasthttp.H2.Hpack.Table.{with_max_table_size}
use blasthttp.H2.Hpack.Decoder.{decode_headers, done}
use blasthttp.H2.Hpack.Wire.{decoded, remember_all}
use blasthttp.H2.Probe.{ProbeOpts, default_opts, assemble, build_probe}
use blasthttp.H2.Probe.Receive.{Request, receive_request}
use blasthttp.H2.Probe.Delivery.{Delivers, build_probe-Delivers, build_probe-decoded}
use blasthttp.H2.Tests.HpackRuns.{
  authority, probe_id, headers_block, headers_encoded, authority-IsPlain, probe_id-IsPlain,
}

-- A padded HEADERS frame that is split after one byte, and a body.
abbrev split_opts : ProbeOpts
split_opts = record default_opts {
  split_headers_after = some 1;
  pad_headers = 2;
  body = some (codes "hi");
}

abbrev probe_bytes : Bytes
probe_bytes =
    preface
    ++ (0 ∷ 0 ∷ 0 ∷ 4 ∷ 0 ∷ 0 ∷ 0 ∷ 0 ∷ 0 ∷ [])
    ++ (0 ∷ 0 ∷ 4 ∷ 1 ∷ 8 ∷ 0 ∷ 0 ∷ 0 ∷ 1 ∷ 2 ∷ 0x41 ∷ 0 ∷ 0 ∷ [])
    ++ (0 ∷ 0 ∷ 21 ∷ 9 ∷ 4 ∷ 0 ∷ 0 ∷ 0 ∷ 1 ∷ 0x8c ∷ 0xf1 ∷ 0xe3 ∷ 0xc2 ∷ 0xe5 ∷ 0xf2 ∷ 0x3a ∷ 0x6b
        ∷ 0xa0 ∷ 0xab ∷ 0x90 ∷ 0xf4 ∷ 0xff ∷ 0 ∷ 4 ∷ b'x' ∷ b'-' ∷ b'i' ∷ b'd' ∷ 1 ∷ b'7' ∷ [])
    ++ (0 ∷ 0 ∷ 2 ∷ 0 ∷ 1 ∷ 0 ∷ 0 ∷ 0 ∷ 1 ∷ b'h' ∷ b'i' ∷ [])

assembled : assemble split_opts headers_block ≡ some probe_bytes
unfolding assemble build_headers_frame build_continuation_frame build_data_frame
    build_settings_frame build_raw_frame headers_flags headers_payload pad_prefix priority_prefix
    data_flags settings_payload
assembled = refl

probe_built : build_probe (authority ∷ probe_id ∷ []) split_opts ≡ ok (some probe_bytes)
unfolding build_probe
probe_built = ap (λ r. r >>= λ b. ok (assemble split_opts b)) headers_encoded ∙ ap ok assembled

build_probe-Delivers_example : Delivers (authority ∷ probe_id ∷ []) split_opts probe_bytes
build_probe-Delivers_example =
    build_probe-Delivers (authority ∷ probe_id ∷ []) split_opts probe_built

build_probe-decoded_example :
    (front : Bytes) × (bytes : Bytes) × (rest : Bytes) × (r : Request) × (probe_bytes
      ≡ front ++ bytes)
    × (receive_request bytes ≡ some (r, rest))
    × (decode_headers (with_max_table_size 0) r.header_block
        ≡ done
            (ok (map decoded (authority ∷ probe_id ∷ [])))
            (remember_all (with_max_table_size 0) (authority ∷ probe_id ∷ [])))
build_probe-decoded_example =
    build_probe-decoded (authority ∷ probe_id ∷ []) split_opts (with_max_table_size 0)
      (authority-IsPlain, (probe_id-IsPlain, tt)) probe_built
