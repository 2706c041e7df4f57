-- ===== src/H2/Hpack/Wire/Decoded.antt =====
-- `decode_headers` reads `wire`.
use blasthttp.Common.{
  ℕ, zero, suc, ◌≤◌, ◌+◌, ◌≡◌, refl, sym, ap, ◌∙◌, none, some, List, [], ◌∷◌, ◌++◌, length,
  length-append, get_elem?, drop, drop-advance, append_assoc, append-nil, All, arith, map,
}
use blasthttp.Common.Bytes.{Bytes}
use blasthttp.Common.Result.{ok}
use blasthttp.H2.Header.{Header}
use blasthttp.H2.Hpack.Octets.RoundTrip.{get_elem?-drop}
use blasthttp.H2.Hpack.Table.{DecodedHeader, Decoder}
use blasthttp.H2.Hpack.Decoder.{Field, decode_field, done, push_header, decode_loop, decode_headers}
use blasthttp.H2.Hpack.Wire.{IsPlain, header_bytes, wire, decoded, remember, remember_all}
use blasthttp.H2.Hpack.Wire.Field.{first_byte, field_of, decode_field_lem}
use blasthttp.H2.Hpack.Wire.Encoded.{encode_headers-wire, IsStaticIndex}
use blasthttp.H2.Hpack.Encoder.{encode_headers}

get_elem?-end : (block : Bytes) (pos : ℕ) → drop pos block ≡ [] → get_elem? block pos ≡ none
get_elem?-end [] pos h = refl
get_elem?-end (x ∷ block) zero h = cc
get_elem?-end (x ∷ block) (suc pos) h = get_elem?-end block pos h

decode_loop_step :
    (fuel : ℕ) (d : Decoder) (block : Bytes) (b pos : ℕ) (out : List DecodedHeader) {f : Field}
    → get_elem? block pos ≡ some b
    → decode_field d block b pos ≡ ok f
    → decode_loop (suc fuel) d block pos out
      ≡ decode_loop fuel f.decoder block f.next (push_header out f.header)
unfolding decode_loop
decode_loop_step fuel d block b pos out here field = rw (here, field, decode_loop)

decode_loop_end :
    (fuel : ℕ) (d : Decoder) (block : Bytes) (pos : ℕ) (out : List DecodedHeader)
    → get_elem? block pos ≡ none
    → decode_loop fuel d block pos out ≡ done (ok out) d
unfolding decode_loop
decode_loop_end zero d block pos out h = rw (h, decode_loop)
decode_loop_end (suc fuel) d block pos out h = rw (h, decode_loop)

header_bytes_nonempty : (h : Header) → 1 ≤ length (header_bytes h)
header_bytes_nonempty h =
    let (b, more, starts, _, _) = first_byte h [] in
    omega (
      arith,
      ap length (sym (append-nil (header_bytes h)) ∙ starts),
      length-append (header_bytes h) [],
    )

decode_loop-wire :
    (hs : List Header) (fuel : ℕ) (d : Decoder) (block : Bytes) (pos : ℕ) (out : List DecodedHeader)
    → All IsPlain hs
    → All (λ h. IsStaticIndex h.force_static_index) hs
    → drop pos block ≡ wire hs
    → length (wire hs) ≤ fuel
    → decode_loop fuel d block pos out ≡ done (ok (out ++ map decoded hs)) (remember_all d hs)
unfolding wire remember_all field_of
decode_loop-wire [] fuel d block pos out p s stands enough =
    decode_loop_end fuel d block pos out (get_elem?-end block pos stands)
    ∙ ap (λ l. done (ok l) d) (sym (append-nil out))
decode_loop-wire (h ∷ rest) zero d block pos out p s stands enough =
    absurd (omega (arith, length-append (header_bytes h) (wire rest), header_bytes_nonempty h))
decode_loop-wire (h ∷ rest) (suc fuel) d block pos out (p, ps) (s, ss) stands enough =
    let (b, more, starts, lo, hi) = first_byte h (wire rest) in
    decode_loop_step fuel d block b pos out (get_elem?-drop block pos b more (stands ∙ starts))
      (decode_field_lem d block (wire rest) b pos h p s stands lo hi)
    ∙ decode_loop-wire rest fuel (remember d h) block (pos + length (header_bytes h))
        (out ++ (decoded h ∷ [])) ps ss (drop-advance block pos (header_bytes h) (wire rest) stands)
        (omega (arith, length-append (header_bytes h) (wire rest), header_bytes_nonempty h))
    ∙ ap (λ l. done (ok l) (remember_all (remember d h) rest))
        (append_assoc out (decoded h ∷ []) (map decoded rest))

-- When the encoder accepts headers of bytes that are not bloated, with no string of 4 GB, the decoder,
-- whatever its table, reads them back in order, with the static table's name where an index is forced, and remembers those with
-- incremental indexing.
pub decode_headers-encode_headers :
    (hs : List Header) (d : Decoder) {block : Bytes}
    → All IsPlain hs
    → encode_headers hs ≡ ok block
    → decode_headers d block ≡ done (ok (map decoded hs)) (remember_all d hs)
unfolding decode_headers
decode_headers-encode_headers hs d {block} p e =
    let (is_wire, s) = encode_headers-wire hs p e in
    decode_loop-wire hs (length block) d block 0 [] p s is_wire (omega (arith, ap length is_wire))
