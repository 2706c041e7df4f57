-- ===== src/H2/Hpack/Encoder/Acceptance.antt =====
-- Which headers the encoder accepts.
use blasthttp.Common.{
  ℕ, ◌≤◌, ◌<◌, ◌⊎◌, inl, inr, ◌≡◌, ◌≢◌, true, false, ◌==◌, Bool-cases, Option, none, some, List, [],
  ◌∷◌, All, arith,
}
use blasthttp.Common.Bytes.{Bytes}
use blasthttp.Common.Result.{ok, >>=-eq-ok}
use blasthttp.H2.Header.{Header}
use blasthttp.H2.Hpack.Encoder.{
  is_none, is_lowercase_token_char, all_token_chars, is_name_valid, is_value_valid,
  check_name_index, check_header, encode_one, encode_loop, encode_headers,
}

-- A byte that a value may hold (RFC 9113 §8.2.1): not NUL, LF or CR.
abbrev pub IsValueByte : ℕ → Type 0
IsValueByte b = (b ≢ 0) × (b ≢ 10) × (b ≢ 13)

-- A byte that a name may hold: visible, and no capital letter.
abbrev pub IsNameByte : ℕ → Type 0
IsNameByte b = (33 ≤ b) × (b ≤ 126) × ((b < 65) ⊎ (90 < b))

abbrev IsIndex : Option ℕ → Type 0
IsIndex none = Unit
IsIndex (some idx) = (1 ≤ idx) × (idx ≤ 61)

-- What a header that the encoder accepts is known to be.
pub record IsAccepted (h : Header) : Type 0 where
  pub bloat_name_ok : h.length_bloat_name ≤ 3
  pub bloat_value_ok : h.length_bloat_value ≤ 3
  pub name_ok :
      (h.allow_invalid_name ≡ true)
      ⊎ (is_none h.force_static_index ≡ false)
      ⊎ ((h.name ≢ []) × All IsNameByte h.name)
  pub value_ok : (h.allow_invalid_value ≡ true) ⊎ All IsValueByte h.value
  pub index_ok : IsIndex h.force_static_index

value_bytes : (v : Bytes) → is_value_valid v ≡ true → All IsValueByte v
unfolding is_value_valid
value_bytes [] h = tt
value_bytes (b ∷ rest) h =
    ((ground arith, ground arith, ground arith), value_bytes rest (ground arith))

token_byte : (b : ℕ) → is_lowercase_token_char b ≡ true → IsNameByte b
unfolding is_lowercase_token_char
token_byte b h = ground arith

token_bytes : (l : Bytes) → all_token_chars l ≡ true → All IsNameByte l
unfolding all_token_chars
token_bytes [] h = tt
token_bytes (b ∷ rest) h = (token_byte b (ground arith), token_bytes rest (ground arith))

name_bytes : (l : Bytes) → is_name_valid l ≡ true → (l ≢ []) × All IsNameByte l
unfolding is_name_valid
name_bytes [] h = absurd cc
name_bytes (b ∷ rest) h = (
  λ e. absurd cc,
  elim (Bool-cases (b == b':')) [
    | inl colon ↦ (ground arith, token_bytes rest (ground arith))
    | inr plain ↦ (token_byte b (ground arith), token_bytes rest (ground arith))
  ],
)

index_lem : (force : Option ℕ) {idx : ℕ} → check_name_index force ≡ ok idx → IsIndex force
unfolding check_name_index
index_lem none h = tt
index_lem (some i) h = ground arith

check_header-IsAccepted : (h : Header) (idx : ℕ) → check_header h ≡ ok idx → IsAccepted h
unfolding check_header
check_header-IsAccepted h idx e = record {
  bloat_name_ok = ground arith;
  bloat_value_ok = ground arith;
  name_ok = elim (Bool-cases h.allow_invalid_name) [
    | inl allowed ↦ inl allowed
    | inr strict ↦ elim (Bool-cases (is_none h.force_static_index)) [
      | inr forced ↦ inr (inl forced)
      | inl literal ↦ inr (inr (name_bytes h.name (ground arith)))
    ]
  ];
  value_ok = elim (Bool-cases h.allow_invalid_value) [
    | inl allowed ↦ inl allowed
    | inr strict ↦ inr (value_bytes h.value (ground arith))
  ];
  index_ok = index_lem h.force_static_index {idx = idx} (ground arith);
}

encode_loop-IsAccepted :
    (hs : List Header) (out : Bytes) {block : Bytes}
    → encode_loop hs out ≡ ok block
    → All IsAccepted hs
unfolding encode_loop encode_one
encode_loop-IsAccepted [] out e = tt
encode_loop-IsAccepted (h ∷ rest) out e =
    let (out', one, others) = >>=-eq-ok (encode_one h out) (encode_loop rest) e in
    let (idx, checked, _) = >>=-eq-ok (check_header h) _ one in
    (check_header-IsAccepted h idx checked, encode_loop-IsAccepted rest out' others)

-- When the encoder answers with a block, no header bloats a length by more than three bytes, a forced
-- index is one of the static table, and a caller who did not opt in has sent no NUL, LF or CR in a
-- value, and no empty name and no capital, blank or control byte in a literal name.
pub encode_headers-IsAccepted :
    (hs : List Header) {block : Bytes} → encode_headers hs ≡ ok block → All IsAccepted hs
unfolding encode_headers
encode_headers-IsAccepted hs e = encode_loop-IsAccepted hs [] e
