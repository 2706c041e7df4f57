-- ===== src/H2/Frame/Raw.antt =====
-- `build_raw_frame` against the receiver of `Parse`.
use blasthttp.Common.{
  ℕ, ◌+◌, ◌*◌, ◌/◌, ◌%◌, ◌^◌, ◌≤◌, ◌<◌, bit_and, ◌≡◌, sym, ◌∙◌, none, some, ◌↔◌, ◌∷◌, ◌++◌, length,
  length-append, take-length-append, drop-length-append, some_inj, arith,
}
use blasthttp.Common.Bits.{bit_and_mask}
use blasthttp.Common.Bytes.{Bytes}
use blasthttp.H2.Frame.{build_raw_frame}
use blasthttp.H2.Frame.Parse.{parse_frame, word}

low_byte : (v : ℕ) → bit_and v 0xff % 256 ≡ v % 256
low_byte v = omega (arith, bit_and_mask 8 v)

abbrev raw_header : ℕ → ℕ → ℕ → ℕ → Bytes → Bytes
raw_header len t f sid payload =
    len / 2 ^ 16 % 256
    ∷ len / 2 ^ 8 % 256
    ∷ len % 256
    ∷ t
    ∷ f
    ∷ sid / 2 ^ 24 % 256
    ∷ sid / 2 ^ 16 % 256
    ∷ sid / 2 ^ 8 % 256
    ∷ sid % 256
    ∷ payload

build_raw_frame_lem :
    (t f s : ℕ) (payload : Bytes)
    → length payload < 2 ^ 24
    → build_raw_frame t f s payload ≡ some (raw_header (length payload) t f (s % 2 ^ 31) payload)
unfolding build_raw_frame
build_raw_frame_lem t f s payload h = simp (low_byte, bit_and_mask 31 s) (ground arith)

three_bytes : (n : ℕ) → n < 2 ^ 24 → n / 65536 % 256 * 65536 + n / 256 % 256 * 256 + n % 256 ≡ n
three_bytes n h = omega arith

four_bytes :
    (n : ℕ)
    → n < 2 ^ 31
    → word (n / 16777216 % 256) (n / 65536 % 256) (n / 256 % 256) (n % 256) % 2147483648 ≡ n
four_bytes n h = omega arith

length_of_frame :
    (t f s : ℕ) (payload : Bytes) {out : Bytes}
    → build_raw_frame t f s payload ≡ some out
    → length payload < 2 ^ 24
unfolding build_raw_frame
length_of_frame t f s payload h = ground arith

parse_raw_header :
    (t f sid : ℕ) (payload rest : Bytes)
    → length payload < 2 ^ 24
    → sid < 2 ^ 31
    → parse_frame (raw_header (length payload) t f sid payload ++ rest)
      ≡ some (record { frame_type = t; flags = f; stream_id = sid; payload = payload }, rest)
unfolding parse_frame
parse_raw_header t f sid payload rest hl hs =
    rw (three_bytes (length payload) hl, four_bytes sid hs)
      (ground (
        arith,
        length-append payload rest,
        take-length-append payload rest,
        drop-length-append payload rest,
      ))

-- The receiver of RFC 9113 gets back the type, the flags, the low 31 bits of the stream identifier
-- and the payload that `build_raw_frame` was given, and is left with the bytes that follow.
pub parse_frame-build_raw_frame :
    (t f s : ℕ) (payload rest : Bytes) {out : Bytes}
    → build_raw_frame t f s payload ≡ some out
    → parse_frame (out ++ rest)
      ≡ some (record { frame_type = t; flags = f; stream_id = s % 2 ^ 31; payload = payload }, rest)
parse_frame-build_raw_frame t f s payload rest {out} h =
    let small : length payload < 2 ^ 24 = length_of_frame t f s payload h in
    let same : raw_header (length payload) t f (s % 2 ^ 31) payload ≡ out =
      some_inj (sym (build_raw_frame_lem t f s payload small) ∙ h) in
    rw (← same) (parse_raw_header t f (s % 2 ^ 31) payload rest small (omega arith))

-- A frame is built exactly when its payload's length fits 24 bits.
build_raw_frame-none_iff :
    (t f s : ℕ) (payload : Bytes)
    → (build_raw_frame t f s payload ≡ none) ↔ (2 ^ 24 ≤ length payload)
unfolding build_raw_frame
build_raw_frame-none_iff t f s payload = (λ h. ground arith, λ h. ground arith)
