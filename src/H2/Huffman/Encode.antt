-- ===== src/H2/Huffman/Encode.antt =====
-- The bits that `encode` writes: the codes one after the other, and a run of ones to the next byte.
use blasthttp.Common.{
  ℕ, zero, suc, ◌+◌, ◌-◌, ◌*◌, ◌/◌, ◌%◌, ◌^◌, ◌≤◌, ◌<◌, bit_and, bit_or, ◌≡◌, refl, sym, ap, ◌∙◌,
  Bool, true, ◌&&◌, if◌then◌else◌, ltb, leb, leb→le, lt→ltb, Bool-cases, inl, inr, List, [], ◌∷◌,
  ◌++◌, length, length-append, length-replicate, replicate, append-nil, append_assoc, All,
  All-append, arith, all_below, all_below_sound,
}
use blasthttp.Common.Bits.{bit_and_mask, bit_or_low}
use blasthttp.Common.Bytes.{Bytes, IsByte}
use blasthttp.Common.Digits.{
  bits, length-bits, bits-append, bits-mod, bits_join, shift_wraps, bits_ones, pow_pos,
}
use blasthttp.H2.Huffman.{
  code_of, flush, push_code, encode_loop, encode, code_bits_count, encoded_len,
}
use blasthttp.H2.Huffman.Table.{huffman_table}

-- The bits of some bytes, and of their codes.
unfoldable pub all_bits : Bytes → List ℕ
all_bits [] = []
all_bits (b ∷ rest) = bits 8 b ++ all_bits rest

unfoldable pub code_bits : ℕ → List ℕ
code_bits b = bits (code_of b).1 (code_of b).0

unfoldable pub codes_bits : Bytes → List ℕ
codes_bits [] = []
codes_bits (b ∷ rest) = code_bits b ++ codes_bits rest

pub all_bits-append : (xs ys : Bytes) → all_bits (xs ++ ys) ≡ all_bits xs ++ all_bits ys
unfolding all_bits
all_bits-append [] ys = refl
all_bits-append (x ∷ xs) ys =
    ap (λ l. bits 8 x ++ l) (all_bits-append xs ys) ∙ sym (append_assoc (bits 8 x) _ _)

all_bits_snoc : (xs : Bytes) (b : ℕ) → all_bits (xs ++ b ∷ []) ≡ all_bits xs ++ bits 8 b
unfolding all_bits
all_bits_snoc xs b =
    all_bits-append xs (b ∷ []) ∙ ap (λ l. all_bits xs ++ l) (append-nil (bits 8 b))

table_ok : ℕ → Bool
table_ok b = ltb (code_of b).0 (2 ^ (code_of b).1) && leb (code_of b).1 30

table_checked : all_below 256 table_ok ≡ true
unfolding all_below table_ok huffman_table
table_checked = refl

-- Every code of the table fits its length, which is at most 30.
pub code_fits : (b : ℕ) → b < 256 → ((code_of b).0 < 2 ^ (code_of b).1) × ((code_of b).1 ≤ 30)
unfolding table_ok
code_fits b h =
    let e : table_ok b ≡ true = all_below_sound 256 table_ok b table_checked h in ground arith

byte_bits : (v : ℕ) → bits 8 (bit_and v 0xff % 256) ≡ bits 8 v
byte_bits v =
    bits-mod 8 8 (bit_and v 0xff) (omega arith)
    ∙ ap (bits 8) (bit_and_mask 8 v)
    ∙ bits-mod 8 8 v (omega arith)

bits-push_code :
    (nb buf code len : ℕ)
    → code < 2 ^ len
    → nb + len ≤ 64
    → bits (nb + len) (push_code buf code len) ≡ bits nb buf ++ bits len code
bits-push_code nb buf code len fits room =
    let q : ℕ = buf % 2 ^ (64 - len) in
    ap (λ (t : ℕ). bits (nb + len) (bit_or t code)) (shift_wraps 64 len buf (omega arith))
    ∙ ap (bits (nb + len)) (bit_or_low len q code fits)
    ∙ bits_join nb len q code fits
    ∙ ap (λ l. l ++ bits len code) (bits-mod nb (64 - len) buf (omega arith))

-- The inner loop ends with less than a byte in the buffer, and moves the bits above to the output.
flush-bits :
    (fuel buf nb : ℕ) (out : Bytes)
    → nb ≤ fuel
    → ((flush fuel buf nb out).0 < 8)
      × (all_bits (flush fuel buf nb out).1 ++ bits (flush fuel buf nb out).0 buf
          ≡ all_bits out ++ bits nb buf)
unfolding flush
flush-bits zero buf nb out h = (omega arith, refl)
flush-bits (suc fuel) buf nb out h = elim (Bool-cases (leb 8 nb)) [
  | inl more ↦
      let byte : ℕ = bit_and (buf / 2 ^ (nb - 8)) 0xff % 256 in
      let (small, same) = flush-bits fuel buf (nb - 8) (out ++ byte ∷ []) (omega arith) in
      let e : 8 + (nb - 8) ≡ nb = omega (arith, leb→le 8 nb more) in
      let flushed : all_bits (out ++ byte ∷ []) ++ bits (nb - 8) buf ≡ all_bits out ++ bits nb buf =
        ap (λ l. l ++ bits (nb - 8) buf) (all_bits_snoc out byte)
        ∙ append_assoc (all_bits out) (bits 8 byte) _
        ∙ ap (λ l. all_bits out ++ (l ++ bits (nb - 8) buf)) (byte_bits (buf / 2 ^ (nb - 8)))
        ∙ ap (λ l. all_bits out ++ l) (sym (bits-append 8 (nb - 8) buf) ∙ ap (λ k. bits k buf) e) in
      rw more (small, same ∙ flushed)
  | inr done ↦ rw done (ground arith, refl)
]

-- What is left below a byte is written with ones behind it.
last_byte :
    (buf nb : ℕ)
    → nb < 8
    → bits 8 (bit_and (push_code buf (2 ^ (8 - nb) - 1) (8 - nb)) 0xff % 256)
      ≡ bits nb buf ++ replicate (8 - nb) 1
last_byte buf nb h =
    let pad : ℕ = 8 - nb in
    let e : 8 ≡ nb + pad = omega arith in
    byte_bits (push_code buf (2 ^ pad - 1) pad)
    ∙ ap (λ k. bits k (push_code buf (2 ^ pad - 1) pad)) e
    ∙ bits-push_code nb buf (2 ^ pad - 1) pad (omega (arith, pow_pos pad)) (omega arith)
    ∙ ap (λ l. bits nb buf ++ l) (bits_ones pad)

-- The bits of the whole output, from any point of the loop.
encode_loop-bits :
    (input : Bytes) (buf nb : ℕ) (out : Bytes)
    → nb < 8
    → All IsByte input
    → (pad : ℕ) × (pad < 8)
      × (all_bits (encode_loop input buf nb out)
          ≡ all_bits out ++ (bits nb buf ++ (codes_bits input ++ replicate pad 1)))
unfolding encode_loop codes_bits code_bits
encode_loop-bits [] buf zero out h bytes =
    (0, omega arith, unfold bits in sym (append-nil (all_bits out)))
encode_loop-bits [] buf (suc nb) out h bytes =
    let final : Bytes =
      out ++ bit_and (push_code buf (2 ^ (8 - suc nb) - 1) (8 - suc nb)) 0xff % 256 ∷ [] in
    (
      8 - suc nb,
      omega arith,
      ap (λ t. all_bits (if t then final else out)) (lt→ltb 0 (suc nb) (omega arith))
          ∙ all_bits_snoc out _
          ∙ ap (λ l. all_bits out ++ l) (last_byte buf (suc nb) h),
    )
encode_loop-bits (b ∷ rest) buf nb out h (byte, bytes) =
    let code = (code_of b).0 in
    let len = (code_of b).1 in
    let buf' = push_code buf code len in
    let fits = code_fits b byte in
    let (small, same) = flush-bits (nb + len) buf' (nb + len) out (omega arith) in
    let next = flush (nb + len) buf' (nb + len) out in
    let (pad, short, all) = encode_loop-bits rest buf' next.0 next.1 small bytes in
    let tail : List ℕ = codes_bits rest ++ replicate pad 1 in
    let joined : bits (nb + len) buf' ≡ bits nb buf ++ code_bits b =
      bits-push_code nb buf code len fits.0 (omega arith) in
    (
      pad,
      short,
      all
          ∙ sym (append_assoc (all_bits next.1) (bits next.0 buf') tail)
          ∙ ap (λ l. l ++ tail) (same ∙ ap (λ l. all_bits out ++ l) joined)
          ∙ simp append_assoc,
    )

-- `encode` writes the codes of the input one after the other, and fewer than eight ones behind them.
pub encode_bits :
    (input : Bytes)
    → All IsByte input
    → (pad : ℕ) × (pad < 8) × (all_bits (encode input) ≡ codes_bits input ++ replicate pad 1)
unfolding encode all_bits
encode_bits input bytes = unfold bits in encode_loop-bits input 0 0 [] (omega arith) bytes

length-all_bits : (xs : Bytes) → length (all_bits xs) ≡ 8 * length xs
unfolding all_bits
length-all_bits [] = refl
length-all_bits (x ∷ xs) =
    omega (arith, length-append (bits 8 x) (all_bits xs), length-bits 8 x, length-all_bits xs)

length-codes_bits : (xs : Bytes) → length (codes_bits xs) ≡ code_bits_count xs
unfolding codes_bits code_bits code_bits_count
length-codes_bits [] = refl
length-codes_bits (x ∷ xs) = omega (
  arith,
  length-append (code_bits x) (codes_bits xs),
  length-bits (code_of x).1 (code_of x).0,
  length-codes_bits xs,
)

-- The length that is compared with the plain one is the length that `encode` writes.
pub encoded_len-eq-length :
    (input : Bytes) → All IsByte input → encoded_len input ≡ length (encode input)
unfolding encoded_len
encoded_len-eq-length input bytes =
    let (pad, short, same) = encode_bits input bytes in
    omega (
      arith,
      ap length same,
      length-all_bits (encode input),
      length-codes_bits input,
      length-append (codes_bits input) (replicate pad 1),
      length-replicate {A = ℕ} pad 1,
    )

all_bytes_below : (b : ℕ) → b % 256 < 256
all_bytes_below b = omega arith

flush-IsByte :
    (fuel buf nb : ℕ) (out : Bytes) → All IsByte out → All IsByte (flush fuel buf nb out).1
unfolding flush
flush-IsByte zero buf nb out h = h
flush-IsByte (suc fuel) buf nb out h = elim (Bool-cases (leb 8 nb)) [
  | inl more ↦
      rw more (flush-IsByte fuel buf (nb - 8) _ (All-append IsByte out _ h (all_bytes_below _, tt)))
  | inr done ↦ rw done h
]

encode_loop-IsByte :
    (input : Bytes) (buf nb : ℕ) (out : Bytes)
    → All IsByte out
    → All IsByte (encode_loop input buf nb out)
unfolding encode_loop
encode_loop-IsByte [] buf nb out h = elim (Bool-cases (ltb 0 nb)) [
  | inl some_left ↦ rw some_left (All-append IsByte out _ h (all_bytes_below _, tt))
  | inr none_left ↦ rw none_left h
]
encode_loop-IsByte (b ∷ rest) buf nb out h =
    encode_loop-IsByte rest _ _ _ (flush-IsByte _ _ _ out h)

pub encode-IsByte : (input : Bytes) → All IsByte (encode input)
unfolding encode
encode-IsByte input = encode_loop-IsByte input 0 0 [] tt
