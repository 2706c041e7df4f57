-- ===== src/Client/Clean.antt =====
-- What `sanitize_uri` of src/client/hyper.rs leaves in a URL.
use blasthttp.Common.{
  ℕ, ◌<◌, ◌≡◌, refl, ap, true, false, ◌&&◌, Bool-cases, both_true, inl, inr, ◌==◌, [], ◌∷◌, ◌++◌,
  All, All-append, arith,
}
use blasthttp.Common.Bytes.{Bytes}
use blasthttp.Client.Sanitize.{sanitize_uri, must_encode, encoded, as_char, is_escape, is_hexdigit}

abbrev pub IsAscii : Bytes → Type 0
IsAscii url = All (λ b. b < 128) url

-- A byte of ASCII that needs no encoding.
abbrev pub IsClean : ℕ → Type 0
IsClean b = (b < 128) × (must_encode b ≡ false)

encoded-IsClean : (b : ℕ) → b < 128 → All IsClean (encoded b)
encoded-IsClean b h = ground arith

clean-encoded : (b : ℕ) → IsClean b → encoded b ≡ b ∷ []
clean-encoded b h = ground arith

hexdigit-IsClean : (b : ℕ) → is_hexdigit b ≡ true → IsClean b
hexdigit-IsClean b h = ground arith

clean-char : (b : ℕ) → IsClean b → as_char b ≡ b ∷ []
clean-char b h = ground arith

escape-IsClean :
    (b c d : ℕ) (rest : Bytes)
    → is_escape b c d ≡ true
    → All IsClean (sanitize_uri rest)
    → All IsClean (as_char b ++ (as_char c ++ (as_char d ++ sanitize_uri rest)))
escape-IsClean b c d rest e h =
    let (first, low) = both_true (b == b'%' && is_hexdigit c) (is_hexdigit d) e in
    let (percent, high) = both_true (b == b'%') (is_hexdigit c) first in
    let clean_b : IsClean b = ground arith in
    let clean_c = hexdigit-IsClean c high in
    let clean_d = hexdigit-IsClean d low in
    rw (clean-char b clean_b, clean-char c clean_c, clean-char d clean_d)
      (clean_b, (clean_c, (clean_d, h)))

sanitize_uri-IsClean : (url : Bytes) → IsAscii url → All IsClean (sanitize_uri url)
unfolding sanitize_uri
sanitize_uri-IsClean [] h = tt
sanitize_uri-IsClean (b ∷ []) h = encoded-IsClean b h.0
sanitize_uri-IsClean (b ∷ (c ∷ [])) h =
    All-append IsClean (encoded b) (encoded c) (encoded-IsClean b h.0) (encoded-IsClean c h.1.0)
sanitize_uri-IsClean (b ∷ (c ∷ (d ∷ rest))) h = elim (Bool-cases (is_escape b c d)) [
  | inl e ↦ rw (e, sanitize_uri) (escape-IsClean b c d rest e (sanitize_uri-IsClean rest h.1.1.1))
  | inr e ↦
      rw (e, sanitize_uri)
        (All-append IsClean (encoded b) (sanitize_uri (c ∷ (d ∷ rest))) (encoded-IsClean b h.0)
          (sanitize_uri-IsClean (c ∷ (d ∷ rest)) h.1))
]

-- A URL of such bytes is left as it is.
sanitize_uri_fixed : (url : Bytes) → All IsClean url → sanitize_uri url ≡ url
unfolding sanitize_uri
sanitize_uri_fixed [] h = refl
sanitize_uri_fixed (b ∷ []) h = clean-encoded b h.0
sanitize_uri_fixed (b ∷ (c ∷ [])) h = rw (clean-encoded b h.0, clean-encoded c h.1.0) refl
sanitize_uri_fixed (b ∷ (c ∷ (d ∷ rest))) h = elim (Bool-cases (is_escape b c d)) [
  | inl e ↦
      rw (e, sanitize_uri, clean-char b h.0, clean-char c h.1.0, clean-char d h.1.1.0)
        (ap (λ t. b ∷ (c ∷ (d ∷ t))) (sanitize_uri_fixed rest h.1.1.1))
  | inr e ↦
      rw (e, sanitize_uri, clean-encoded b h.0)
        (ap (λ t. b ∷ t) (sanitize_uri_fixed (c ∷ (d ∷ rest)) h.1))
]

-- An ASCII URL comes out as ASCII without a space, a quote, an angle bracket, a brace or a control
-- character, and to sanitize it again changes nothing.
sanitize_uri_lem :
    (url : Bytes)
    → IsAscii url
    → All IsClean (sanitize_uri url) × (sanitize_uri (sanitize_uri url) ≡ sanitize_uri url)
sanitize_uri_lem url h =
    let clean = sanitize_uri-IsClean url h in (clean, sanitize_uri_fixed (sanitize_uri url) clean)
