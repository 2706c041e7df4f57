-- ===== src/H2/Probe/Delivery.antt =====
-- What `build_probe` delivers.
use blasthttp.Common.{
  ◌%◌, ◌^◌, ◌≡◌, sym, ap, ◌∙◌, true, Option, none, some, List, ◌++◌, append_assoc, All, map,
  some_inj,
}
use blasthttp.Common.Bytes.{Bytes}
use blasthttp.Common.Result.{ok, >>=-eq-ok, ok_inj}
use blasthttp.H2.Frame.{frame_data, flag_end_stream}
use blasthttp.H2.Frame.Parse.{has_flag, data_bytes}
use blasthttp.H2.Frame.Receive.{Receives, build_data_frame-received}
use blasthttp.H2.Header.{Header}
use blasthttp.H2.Hpack.Encoder.{encode_headers}
use blasthttp.H2.Hpack.Table.{Decoder}
use blasthttp.H2.Hpack.Decoder.{decode_headers, done}
use blasthttp.H2.Hpack.Wire.{IsPlain, decoded, remember_all}
use blasthttp.H2.Hpack.Wire.Decoded.{decode_headers-encode_headers}
use blasthttp.H2.Probe.{
  ProbeOpts, preface_bytes, settings_bytes, headers_bytes, body_bytes, assemble, build_probe,
}
use blasthttp.H2.Probe.Receive.{
  Request, receive_request, request_of, extend-eq-some, headers_bytes-received,
}

-- Behind the header block: nothing, or a DATA frame that ends the stream with the body.
abbrev pub HasBody : ProbeOpts → Option Bytes → Bytes → Bytes → Type 0
HasBody opts none bytes rest = bytes ≡ rest
HasBody opts (some body) bytes rest = Receives bytes rest λ f.
    (f.frame_type ≡ frame_data)
    × (f.stream_id ≡ opts.stream_id % 2 ^ 31)
    × (has_flag f.flags flag_end_stream ≡ true)
    × (data_bytes f ≡ some body)

-- The parts of a probe, in order, as the receiver reads them.
pub record Delivers (headers : List Header) (opts : ProbeOpts) (out : Bytes) : Type 0 where
  pub settings_frame : Bytes
  pub header_block : Bytes
  pub request : Bytes
  pub behind : Bytes
  pub encoded : encode_headers headers ≡ ok header_block
  pub settings_built : settings_bytes opts.settings ≡ some settings_frame
  pub layout :
      out ≡ preface_bytes opts ++ (settings_frame ++ (opts.extra_frames_before_headers ++ request))
  pub received : receive_request request ≡ some (request_of opts header_block, behind)
  pub body_ok : HasBody opts opts.body behind opts.extra_frames_after

body_bytes-HasBody :
    (opts : ProbeOpts) (body : Option Bytes) (rest : Bytes) {out : Bytes}
    → body_bytes opts body ≡ some out
    → HasBody opts body (out ++ rest) rest
body_bytes-HasBody opts none rest h = ap (λ (l : Bytes). l ++ rest) (sym (some_inj h))
body_bytes-HasBody opts (some body) rest h =
    build_data_frame-received body opts.stream_id true opts.pad_data rest h

-- Six parts that were appended one by one.
pieces :
    (u v w x y z : Bytes) {uv uvw front most out : Bytes}
    → out ≡ most ++ z
    → most ≡ front ++ y
    → front ≡ uvw ++ x
    → uvw ≡ uv ++ w
    → uv ≡ u ++ v
    → out ≡ u ++ (v ++ (w ++ (x ++ (y ++ z))))
pieces u v w x y z h5 h4 h3 h2 h1 =
    h5
    ∙ ap (λ l. l ++ z) (h4 ∙ ap (λ l. l ++ y) (h3 ∙ ap (λ l. l ++ x) (h2 ∙ ap (λ l. l ++ w) h1)))
    ∙ simp append_assoc

assemble-Delivers :
    (headers : List Header) (opts : ProbeOpts) (block : Bytes) {out : Bytes}
    → encode_headers headers ≡ ok block
    → assemble opts block ≡ some out
    → Delivers headers opts out
unfolding assemble
assemble-Delivers headers opts block {out} e h =
    let (a, z, ha, hz, same_a) = extend-eq-some _ (some opts.extra_frames_after) {out = out} h in
    let (b, body, hb, hbody, same_b) = extend-eq-some _ (body_bytes opts opts.body) {out = a} ha in
    let (c, heads, hc, hheads, same_c) =
      extend-eq-some _ (headers_bytes opts block opts.split_headers_after) {out = b} hb in
    let (d, extra, hd, hextra, same_d) =
      extend-eq-some _ (some opts.extra_frames_before_headers) {out = c} hc in
    let (p, settings, hp, hsettings, same_p) =
      extend-eq-some (some (preface_bytes opts)) (settings_bytes opts.settings) {out = d} hd in
    let behind : Bytes = body ++ opts.extra_frames_after in
    record {
      settings_frame = settings;
      header_block = block;
      request = heads ++ behind;
      behind = behind;
      encoded = e;
      settings_built = hsettings;
      layout =
          pieces (preface_bytes opts) settings opts.extra_frames_before_headers heads body
            opts.extra_frames_after (same_a ∙ ap (λ l. a ++ l) (sym (some_inj hz))) same_b same_c
            (same_d ∙ ap (λ l. d ++ l) (sym (some_inj hextra)))
            (same_p ∙ ap (λ l. l ++ settings) (sym (some_inj hp)));
      received = headers_bytes-received opts block behind opts.split_headers_after hheads;
      body_ok = body_bytes-HasBody opts opts.body opts.extra_frames_after hbody;
    }

-- A probe that was built is the preface, the SETTINGS frame, the caller's frames and a request. The
-- receiver of the request puts the encoder's header block together, whether it was split or padded,
-- with the stream, the priority and the END_STREAM flag as asked; behind it stands the body in a DATA
-- frame that ends the stream, if there is a body, and the caller's last frames.
pub build_probe-Delivers :
    (headers : List Header) (opts : ProbeOpts) {out : Bytes}
    → build_probe headers opts ≡ ok (some out)
    → Delivers headers opts out
unfolding build_probe
build_probe-Delivers headers opts h =
    let (block, encoded, built) =
      >>=-eq-ok (encode_headers headers) (λ b. ok (assemble opts b)) h in
    assemble-Delivers headers opts block encoded (ok_inj built)

-- The receiver of a probe whose headers are bytes, not bloated, with no string of 4 GB, decodes the header block of its request to
-- the headers that the probe was built from, in order, with any decoder.
pub build_probe-decoded :
    (headers : List Header) (opts : ProbeOpts) (d : Decoder) {out : Bytes}
    → All IsPlain headers
    → build_probe headers opts ≡ ok (some out)
    → (front : Bytes) × (bytes : Bytes) × (rest : Bytes) × (r : Request) × (out ≡ front ++ bytes)
      × (receive_request bytes ≡ some (r, rest))
      × (decode_headers d r.header_block ≡ done (ok (map decoded headers)) (remember_all d headers))
unfolding request_of
build_probe-decoded headers opts d {out} plain h =
    let p : Delivers headers opts out = build_probe-Delivers headers opts h in
    let before = preface_bytes opts ++ (p.settings_frame ++ opts.extra_frames_before_headers) in
    (
      before,
      p.request,
      p.behind,
      request_of opts p.header_block,
      p.layout ∙ simp append_assoc,
      p.received,
      decode_headers-encode_headers headers d plain p.encoded,
    )
