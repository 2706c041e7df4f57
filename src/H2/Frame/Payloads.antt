-- ===== src/H2/Frame/Payloads.antt =====
-- The payloads of the typed builders against the receiver of `Parse`.
use blasthttp.Common.{
  ℕ, suc, ◌+◌, ◌-◌, ◌/◌, ◌%◌, ◌^◌, ◌<◌, bit_and, bit_or, ◌≡◌, refl, ap, ◌∙◌, Option, none, some,
  List, [], ◌∷◌, ◌++◌, length, length-append, length-replicate, replicate, arith, ltb, Bool, true,
  false, All, append-nil, take-append,
}
use mathlib.Core.Path.{ap₂}
use blasthttp.Common.Bits.{bit_and_mask, bit_or_high}
use blasthttp.Common.Bytes.{be32, Bytes, IsU32}
use blasthttp.H2.Frame.{
  HeadersFrameOpts, Priority, settings_payload, priority_field, priority_prefix, pad_prefix,
  headers_flags, headers_payload, data_flags, flag_padded, flag_priority, flag_end_stream,
  flag_end_headers, is_some, set_flag,
}
use blasthttp.H2.Frame.Parse.{
  read_word, word, has_flag, strip_padding, strip_priority, parse_settings, header_fields,
  fields_of, fields_of_lem,
}

pub word-be32 :
    (v : ℕ) → IsU32 v → word (v / 2 ^ 24 % 256) (v / 2 ^ 16 % 256) (v / 2 ^ 8 % 256) (v % 256) ≡ v
word-be32 v h = omega arith

pub read_word-be32 : (v : ℕ) (rest : Bytes) → IsU32 v → read_word (be32 v rest) ≡ some (v, rest)
read_word-be32 v rest h = rw (word-be32 v h)

-- Padding comes off again, and leaves what was padded.
pub strip_padding-pad_prefix :
    (p : ℕ) (inner : Bytes)
    → strip_padding (ltb 0 p) (pad_prefix p (inner ++ replicate p 0)) ≡ some inner
unfolding pad_prefix
strip_padding-pad_prefix ℕ.zero inner = rw append-nil
strip_padding-pad_prefix (suc p) inner =
    let pads : Bytes = replicate (suc p) 0 in
    let long : length (inner ++ pads) ≡ length inner + suc p =
      length-append inner pads ∙ ap (λ k. length inner + k) (length-replicate (suc p) 0) in
    ground
      (arith, long, take-append (length (inner ++ pads) - suc p) inner pads (omega (arith, long)))

-- What a receiver keeps of a priority: the reserved bit of the dependency is gone.
abbrev pub seen_priority : Option Priority → Option Priority
seen_priority none = none
seen_priority (some (dep, weight, exclusive)) = some (dep % 2 ^ 31, weight, exclusive)

exclusive_word : (dep : ℕ) → bit_or (bit_and dep 0x7fff_ffff) 0x8000_0000 ≡ dep % 2 ^ 31 + 2 ^ 31
exclusive_word dep = rw (bit_and_mask 31 dep) (bit_or_high 31 1 (dep % 2 ^ 31) (omega arith))

pub strip_priority-priority_prefix :
    (pr : Option Priority) (block : Bytes)
    → strip_priority (is_some pr) (priority_prefix pr block) ≡ some (seen_priority pr, block)
unfolding priority_prefix priority_field
strip_priority-priority_prefix none block = refl
strip_priority-priority_prefix (some (dep, weight, true)) block =
    rw (exclusive_word dep) (ground arith)
strip_priority-priority_prefix (some (dep, weight, false)) block =
    rw (bit_and_mask 31 dep) (ground arith)

pub parse_settings-settings_payload :
    (settings : List (ℕ × ℕ))
    → All (λ s. (s.0 < 2 ^ 16) × IsU32 s.1) settings
    → parse_settings (settings_payload settings) ≡ some settings
unfolding parse_settings settings_payload
parse_settings-settings_payload [] h = refl
parse_settings-settings_payload ((id, val) ∷ rest) ((hid, hval), h) =
    rw (parse_settings-settings_payload rest h) (ground (arith, word-be32 val hval))

abbrev four_flags : Bool → Bool → Bool → Bool → ℕ
four_flags a b c d =
    set_flag d flag_priority
      (set_flag c flag_padded (set_flag b flag_end_headers (set_flag a flag_end_stream 0)))

flags_read :
    (a b c d : Bool)
    → (has_flag (four_flags a b c d) flag_end_stream ≡ a)
      × (has_flag (four_flags a b c d) flag_end_headers ≡ b)
      × (has_flag (four_flags a b c d) flag_padded ≡ c)
      × (has_flag (four_flags a b c d) flag_priority ≡ d)
flags_read true true true true = (refl, refl, refl, refl)
flags_read true true true false = (refl, refl, refl, refl)
flags_read true true false true = (refl, refl, refl, refl)
flags_read true true false false = (refl, refl, refl, refl)
flags_read true false true true = (refl, refl, refl, refl)
flags_read true false true false = (refl, refl, refl, refl)
flags_read true false false true = (refl, refl, refl, refl)
flags_read true false false false = (refl, refl, refl, refl)
flags_read false true true true = (refl, refl, refl, refl)
flags_read false true true false = (refl, refl, refl, refl)
flags_read false true false true = (refl, refl, refl, refl)
flags_read false true false false = (refl, refl, refl, refl)
flags_read false false true true = (refl, refl, refl, refl)
flags_read false false true false = (refl, refl, refl, refl)
flags_read false false false true = (refl, refl, refl, refl)
flags_read false false false false = (refl, refl, refl, refl)

two_flags_read :
    (a c : Bool)
    → (has_flag (set_flag c flag_padded (set_flag a flag_end_stream 0)) flag_end_stream ≡ a)
      × (has_flag (set_flag c flag_padded (set_flag a flag_end_stream 0)) flag_padded ≡ c)
two_flags_read true true = (refl, refl)
two_flags_read true false = (refl, refl)
two_flags_read false true = (refl, refl)
two_flags_read false false = (refl, refl)

-- The flags that the builders set, read one by one.
pub headers_flags_read :
    (opts : HeadersFrameOpts)
    → (has_flag (headers_flags opts) flag_end_stream ≡ opts.end_stream)
      × (has_flag (headers_flags opts) flag_end_headers ≡ opts.end_headers)
      × (has_flag (headers_flags opts) flag_padded ≡ ltb 0 opts.padding)
      × (has_flag (headers_flags opts) flag_priority ≡ is_some opts.priority)
unfolding headers_flags
headers_flags_read opts =
    flags_read opts.end_stream opts.end_headers (ltb 0 opts.padding) (is_some opts.priority)

pub data_flags_read :
    (end_stream : Bool) (padding : ℕ)
    → (has_flag (data_flags end_stream padding) flag_end_stream ≡ end_stream)
      × (has_flag (data_flags end_stream padding) flag_padded ≡ ltb 0 padding)
unfolding data_flags
data_flags_read end_stream padding = two_flags_read end_stream (ltb 0 padding)

priority_prefix-append :
    (pr : Option Priority) (block more : Bytes)
    → priority_prefix pr (block ++ more) ≡ priority_prefix pr block ++ more
unfolding priority_prefix priority_field
priority_prefix-append none block more = refl
priority_prefix-append (some (dep, weight, exclusive)) block more = refl

pub strip_padding-headers_payload :
    (opts : HeadersFrameOpts)
    → strip_padding (ltb 0 opts.padding) (headers_payload opts)
      ≡ some (priority_prefix opts.priority opts.header_block)
unfolding headers_payload
strip_padding-headers_payload opts =
    ap (λ b. strip_padding (ltb 0 opts.padding) (pad_prefix opts.padding b))
      (priority_prefix-append opts.priority opts.header_block (replicate opts.padding 0))
    ∙ strip_padding-pad_prefix opts.padding (priority_prefix opts.priority opts.header_block)

pub header_fields-headers_payload :
    (opts : HeadersFrameOpts) (t s : ℕ)
    → header_fields (record {
      frame_type = t;
      flags = headers_flags opts;
      stream_id = s;
      payload = headers_payload opts;
    })
      ≡ some (seen_priority opts.priority, opts.header_block)
unfolding header_fields
header_fields-headers_payload opts t s =
    let flags = headers_flags_read opts in
    ap₂ (λ p q. fields_of p q (headers_payload opts)) flags.2 flags.3
    ∙ fields_of_lem _ _ _ _ (strip_padding-headers_payload opts)
    ∙ strip_priority-priority_prefix opts.priority opts.header_block
