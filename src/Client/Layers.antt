-- ===== src/Client/Layers.antt =====
-- Undoing a stack of content codings: `decompress` of src/client/hyper.rs.
use blasthttp.Common.{
  ℕ, suc, ◌≤◌, ◌≡◌, refl, ◌⊎◌, Bool, true, false, not, Bool-cases, inl, inr, leb, Option, none,
  some, List, [], ◌∷◌, length, length-take, arith,
}
use mathlib.Core.Path.{subst}
use blasthttp.Common.Bytes.{Bytes}
use blasthttp.Common.Text.{is_nil, split}
use blasthttp.Client.Inflate.{
  Codec, gzip, deflate, brotli, identity, Decoder, gzip_decoder, zlib_decoder, deflate_decoder,
  brotli_decoder, Inflated, whole, partial, failed, content, settled, Codings, supported,
  unsupported, codings, reverse_onto, finished, read_bounded, attempt, or_fallback, decode_one,
  peel, peel_first, decompress, has_zlib_header, keep_first,
}

Inflated-cases :
    (o : Inflated)
    → ((out : Bytes) × (o ≡ whole out))
      ⊎ (((out : Bytes) × (why : Bytes) × (o ≡ partial out why))
          ⊎ ((reason : Bytes) × (o ≡ failed reason)))
Inflated-cases (whole out) = inl (out, refl)
Inflated-cases (partial out why) = inr (inl (out, why, refl))
Inflated-cases (failed reason) = inr (inr (reason, refl))

Codings-cases :
    (c : Codings)
    → ((codecs : List Codec) × (c ≡ supported codecs)) ⊎ ((token : Bytes) × (c ≡ unsupported token))
Codings-cases (supported codecs) = inl (codecs, refl)
Codings-cases (unsupported token) = inr (token, refl)

module _ (decoder : Decoder → Bytes → Bytes × Option Bytes) (max_size : ℕ) where
  -- A body under codings, the outermost first: each decoder gives the next body whole.
  pub data Peeled : List Codec → Bytes → Bytes → Type 0 where
    bare : (body : Bytes) → Peeled [] body body
    coded :
        (codec : Codec) (codecs : List Codec) (encoded inner body : Bytes)
        → decode_one decoder max_size codec encoded ≡ whole inner
        → Peeled codecs inner body
        → Peeled (codec ∷ codecs) encoded body

  peel-Peeled :
      {codecs : List Codec} {encoded body : Bytes} (declared peeled : ℕ)
      → Peeled codecs encoded body
      → peel decoder max_size codecs declared peeled none encoded ≡ content body
  unfolding peel
  peel-Peeled declared peeled (bare body) = refl
  peel-Peeled declared peeled (coded codec codecs encoded inner body e layers) =
      rw (e, peel) (peel-Peeled declared (suc peeled) layers)

  peel_first-Peeled :
      {codecs : List Codec} {encoded body : Bytes} (declared : ℕ)
      → Peeled codecs encoded body
      → peel_first decoder max_size codecs declared encoded ≡ content body
  peel_first-Peeled declared (bare body) = refl
  peel_first-Peeled declared (coded codec codecs encoded inner body e layers) =
      rw (e, peel_first) (peel-Peeled declared 1 layers)

  -- What came off is no longer than the bound.
  abbrev IsBounded : Inflated → Type 0
  IsBounded (whole out) = length out ≤ max_size
  IsBounded (partial out why) = length out ≤ max_size
  IsBounded (failed reason) = Unit

  settled-IsBounded :
      (codec : Codec) (out : Bytes) (error : Option Bytes)
      → length out ≤ max_size
      → IsBounded (settled codec out error)
  settled-IsBounded codec out none h = h
  settled-IsBounded codec [] (some e) h = tt
  settled-IsBounded codec (b ∷ out) (some e) h = h

  read_bounded-IsBounded :
      (reader : Decoder) (bytes : Bytes) (codec : Codec)
      → IsBounded (read_bounded decoder max_size reader bytes codec)
  read_bounded-IsBounded reader bytes codec =
      let r = decoder reader bytes in
      elim (Bool-cases (leb max_size (length r.0))) [
        | inl e ↦ let n = length-take max_size r.0 in rw e (omega (arith, n))
        | inr e ↦ rw e (settled-IsBounded codec r.0 r.1 (ground arith))
      ]

  attempt-IsBounded :
      (bytes : Bytes) (zlib : Bool) → IsBounded (attempt decoder max_size bytes zlib)
  attempt-IsBounded bytes true = read_bounded-IsBounded zlib_decoder bytes deflate
  attempt-IsBounded bytes false = read_bounded-IsBounded deflate_decoder bytes deflate

  or_fallback-IsBounded :
      (first fallback : Inflated)
      → IsBounded first
      → IsBounded fallback
      → IsBounded (or_fallback decoder max_size first fallback)
  or_fallback-IsBounded (whole a) f ha hf = ha
  or_fallback-IsBounded (partial a w) f ha hf = ha
  or_fallback-IsBounded (failed e) (whole a) ha hf = hf
  or_fallback-IsBounded (failed e) (partial a w) ha hf = hf
  or_fallback-IsBounded (failed e) (failed e') ha hf = tt

  decode_one-IsBounded :
      (codec : Codec) (bytes : Bytes)
      → length bytes ≤ max_size
      → IsBounded (decode_one decoder max_size codec bytes)
  unfolding decode_one
  decode_one-IsBounded gzip bytes h = read_bounded-IsBounded gzip_decoder bytes gzip
  decode_one-IsBounded deflate bytes h =
      or_fallback-IsBounded _ _ (attempt-IsBounded bytes (has_zlib_header bytes))
        (attempt-IsBounded bytes (not (has_zlib_header bytes)))
  decode_one-IsBounded brotli bytes h = read_bounded-IsBounded brotli_decoder bytes brotli
  decode_one-IsBounded identity bytes h = h

  finished-bounded :
      (out : Bytes) (incomplete : Option Bytes)
      → length out ≤ max_size
      → length (finished out incomplete).body ≤ max_size
  finished-bounded out none h = h
  finished-bounded out (some e) h = h

  peel-bounded :
      (codecs : List Codec) (declared peeled : ℕ) (incomplete : Option Bytes) (out : Bytes)
      → length out ≤ max_size
      → length (peel decoder max_size codecs declared peeled incomplete out).body ≤ max_size
  unfolding peel
  peel-bounded [] declared peeled incomplete out h = finished-bounded out incomplete h
  peel-bounded (codec ∷ codecs) declared peeled incomplete out h =
      let off = decode_one-IsBounded codec out h in
      elim (Inflated-cases (decode_one decoder max_size codec out)) [
        | inl (next, e) ↦
            rw (e, peel)
              (peel-bounded codecs declared (suc peeled) incomplete next (subst IsBounded e off))
        | inr (inl (next, why, e)) ↦
            rw (e, peel)
              (peel-bounded codecs declared (suc peeled) (keep_first incomplete why) next
                (subst IsBounded e off))
        | inr (inr (reason, e)) ↦ rw (e, peel) h
      ]

  peel_first-bounded :
      (codecs : List Codec) (declared : ℕ) (bytes : Bytes)
      → length bytes ≤ max_size
      → length (peel_first decoder max_size codecs declared bytes).body ≤ max_size
  peel_first-bounded [] declared bytes h = h
  peel_first-bounded (codec ∷ codecs) declared bytes h =
      let off = decode_one-IsBounded codec bytes h in
      elim (Inflated-cases (decode_one decoder max_size codec bytes)) [
        | inl (next, e) ↦
            rw (e, peel_first) (peel-bounded codecs declared 1 none next (subst IsBounded e off))
        | inr (inl (next, why, e)) ↦
            rw (e, peel_first)
              (peel-bounded codecs declared 1 (some why) next (subst IsBounded e off))
        | inr (inr (reason, e)) ↦ rw (e, peel_first) h
      ]

  -- A body that came in under the bound stays under it: whatever the header claims and the decoders
  -- give out, `decompress` never returns more than `max_size` bytes.
  pub decompress_bounded :
      (encoding bytes : Bytes)
      → length bytes ≤ max_size
      → length (decompress decoder max_size encoding bytes).body ≤ max_size
  unfolding decompress
  decompress_bounded encoding bytes h = elim (Bool-cases (is_nil bytes)) [
    | inl e ↦ rw (e, decompress) (omega arith)
    | inr e ↦ elim (Codings-cases (codings (split b',' encoding))) [
      | inl (codecs, c) ↦
          rw (e, decompress, c)
            (peel_first-bounded (reverse_onto codecs []) (length codecs) bytes h)
      | inr (token, c) ↦ rw (e, decompress, c) h
    ]
  ]

  -- The codings that the header is read as come off from the last to the first.
  pub decompress-Peeled :
      (encoding bytes body : Bytes) (codecs : List Codec)
      → is_nil bytes ≡ false
      → codings (split b',' encoding) ≡ supported codecs
      → Peeled (reverse_onto codecs []) bytes body
      → decompress decoder max_size encoding bytes ≡ content body
  unfolding decompress
  decompress-Peeled encoding bytes body codecs full listed layers =
      rw (full, decompress, listed) (peel_first-Peeled (length codecs) layers)
