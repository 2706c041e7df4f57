-- ===== src/H2/Hpack/Wire/Encoded.antt =====
-- `encode_headers` writes `wire`.
use blasthttp.Common.{
  ℕ, ◌≤◌, ◌≡◌, refl, sym, ap, ◌∙◌, false, ◌==◌, Option, none, some, List, [], ◌∷◌, ◌++◌,
  append_assoc, append-nil, All, arith,
}
use blasthttp.Common.Bytes.{Bytes}
use blasthttp.Common.Result.{ok, >>=-eq-ok, ok_inj}
use blasthttp.H2.Header.{Header, Indexing, with_indexing, without_indexing, never_indexed}
use blasthttp.H2.Hpack.Integer.{write_integer}
use blasthttp.H2.Hpack.Integer.RoundTrip.{IsPrefix, integer_bytes, write_integer-integer_bytes}
use blasthttp.H2.Hpack.Octets.{write_string}
use blasthttp.H2.Hpack.Octets.RoundTrip.{string_bytes, write_string-string_bytes}
use blasthttp.H2.Hpack.Encoder.{
  representation, check_name_index, check_header, emit_header, encode_one, encode_loop,
  encode_headers,
}
use blasthttp.H2.Hpack.Wire.{IsPlain, index_of, name_part, header_bytes, wire}

-- A forced index that passed the checks is one of the static table.
abbrev pub IsStaticIndex : Option ℕ → Type 0
IsStaticIndex none = Unit
IsStaticIndex (some idx) = (1 ≤ idx) × (idx ≤ 61)

check_name_index_ok :
    (force : Option ℕ) (idx : ℕ)
    → check_name_index force ≡ ok idx
    → IsStaticIndex force × (idx ≡ index_of force)
unfolding check_name_index
check_name_index_ok none idx h = (tt, sym (ok_inj h))
check_name_index_ok (some i) idx h = ground arith

check_header_last :
    (h : Header) (idx : ℕ)
    → check_header h ≡ ok idx
    → check_name_index h.force_static_index ≡ ok idx
unfolding check_header
check_header_last h idx e = ground arith

pub check_header_ok :
    (h : Header) (idx : ℕ)
    → check_header h ≡ ok idx
    → IsStaticIndex h.force_static_index × (idx ≡ index_of h.force_static_index)
check_header_ok h idx e = check_name_index_ok h.force_static_index idx (check_header_last h idx e)

pub representation-IsPrefix : (i : Indexing) → IsPrefix (representation i).1 (representation i).0
representation-IsPrefix with_indexing = record { short = omega arith; high = 1; above = refl }
representation-IsPrefix without_indexing = record { short = omega arith; high = 0; above = refl }
representation-IsPrefix never_indexed = record { short = omega arith; high = 1; above = refl }

-- The prefix of the header, and the value behind it.
emit_index :
    (h : Header) (out : Bytes) (idx : ℕ)
    → idx ≤ 61
    → write_integer out idx (representation h.indexing).1 (representation h.indexing).0 0
      ≡ out ++ integer_bytes idx (representation h.indexing).1 (representation h.indexing).0
emit_index h out idx small =
    write_integer-integer_bytes out idx (representation-IsPrefix h.indexing) (omega arith)

emit_value :
    (h : Header) (out : Bytes)
    → IsPlain h
    → write_string out h.value h.huffman_value h.length_bloat_value
      ≡ out ++ string_bytes h.huffman_value h.value
emit_value h out p =
    ap (write_string out h.value h.huffman_value) p.value_bloat
    ∙ write_string-string_bytes out h.value h.huffman_value p.value_short

emit_name :
    (h : Header) (out : Bytes)
    → IsPlain h
    → write_string out h.name h.huffman_name h.length_bloat_name
      ≡ out ++ string_bytes h.huffman_name h.name
emit_name h out p =
    ap (write_string out h.name h.huffman_name) p.name_bloat
    ∙ write_string-string_bytes out h.name h.huffman_name p.name_short

emit_part :
    (h : Header) (out : Bytes)
    → IsPlain h
    → (force : Option ℕ) → IsStaticIndex force
    → emit_header h (index_of force) out
      ≡ out
        ++ (integer_bytes
              (index_of force)
              (representation h.indexing).1
              (representation h.indexing).0
            ++ (name_part force h ++ string_bytes h.huffman_value h.value))
unfolding emit_header
emit_part h out p none s =
    emit_value h _ p
    ∙ ap (λ l. l ++ string_bytes h.huffman_value h.value)
        (emit_name h _ p
          ∙ ap (λ l. l ++ string_bytes h.huffman_name h.name) (emit_index h out 0 (omega arith)))
    ∙ simp append_assoc
emit_part h out p (some idx) (lo, hi) =
    let indexed : (idx == 0) ≡ false = ground arith in
    rw indexed (
      emit_value h _ p
      ∙ ap (λ l. l ++ string_bytes h.huffman_value h.value) (emit_index h out idx hi)
      ∙ append_assoc out _ _)

emit_header_lem :
    (h : Header) (out : Bytes)
    → IsPlain h
    → IsStaticIndex h.force_static_index
    → emit_header h (index_of h.force_static_index) out ≡ out ++ header_bytes h
unfolding header_bytes
emit_header_lem h out p s = emit_part h out p h.force_static_index s

encode_loop-wire :
    (hs : List Header) (out : Bytes) {block : Bytes}
    → All IsPlain hs
    → encode_loop hs out ≡ ok block
    → (block ≡ out ++ wire hs) × All (λ h. IsStaticIndex h.force_static_index) hs
unfolding encode_loop encode_one wire
encode_loop-wire [] out p e = (sym (ok_inj e) ∙ sym (append-nil out), tt)
encode_loop-wire (h ∷ rest) out (p, ps) e =
    let (out', one, more) = >>=-eq-ok (encode_one h out) (encode_loop rest) e in
    let (idx, checked, emitted) =
      >>=-eq-ok (check_header h) (λ idx. ok (emit_header h idx out)) one in
    let (static, same) = check_header_ok h idx checked in
    let written : out' ≡ out ++ header_bytes h =
      sym (ok_inj emitted) ∙ ap (λ i. emit_header h i out) same ∙ emit_header_lem h out p static in
    let (all, statics) = encode_loop-wire rest out' ps more in
    (
      all ∙ ap (λ l. l ++ wire rest) written ∙ append_assoc out (header_bytes h) (wire rest),
      (static, statics),
    )

pub encode_headers-wire :
    (hs : List Header) {block : Bytes}
    → All IsPlain hs
    → encode_headers hs ≡ ok block
    → (block ≡ wire hs) × All (λ h. IsStaticIndex h.force_static_index) hs
unfolding encode_headers
encode_headers-wire hs p e = encode_loop-wire hs [] p e
