-- ===== src/Client/Alpn.antt =====
-- `encode_alpn_protocols` of src/client/hyper.rs against a reader of the list that RFC 7301 describes.
use blasthttp.Common.{
  ℕ, zero, suc, ◌%◌, ◌≤◌, ◌≡◌, ◌⊎◌, inl, inr, refl, ap, ◌∙◌, false, ◌||◌, if◌then◌else◌, Bool-cases,
  ltb, ◌==◌, Option, none, some, List, [], ◌∷◌, ◌++◌, length, length-append, take, drop,
  take-append, drop-append, All, arith,
}
use blasthttp.Common.Bytes.{Bytes, codes}
use blasthttp.Common.Maybe.{◌>>=◌}
use blasthttp.Common.Result.{ok, err}
use blasthttp.Client.Error.{ClientError, error_of, decimal, tls}
use blasthttp.Client.Tls.{check_protocol, encode_alpn_protocols}

-- Names of at least one byte, each behind its length; the first argument bounds their number.
unfoldable pub read_names : ℕ → Bytes → Option (List Bytes)
read_names fuel [] = some []
read_names zero (n ∷ bs) = none
read_names (suc fuel) (n ∷ bs) =
    let rest = read_names fuel (drop n bs) in
    if n == 0 || ltb (length bs) n then none else rest >>= λ names. some (take n bs ∷ names)

abbrev pub Fits : Bytes → Type 0
Fits p = (1 ≤ length p) × (length p ≤ 255)

check_protocol-cases :
    (p : Bytes)
    → (Fits p × (check_protocol p ≡ ok (length p ∷ p)))
      ⊎ ((e : ClientError) × (check_protocol p ≡ err e) × (e.kind ≡ tls) × (¬ Fits p))
check_protocol-cases [] =
    inr (
      error_of tls (codes "ALPN protocol name cannot be empty"),
      refl,
      refl,
      λ h. omega (arith, h.0),
    )
check_protocol-cases (x ∷ p) =
    let len = length (x ∷ p) in
    elim (Bool-cases (ltb 255 len)) [
      | inl long ↦
          let e = error_of tls (
            codes "ALPN protocol name too long ("
            ++ (decimal len ++ (codes "B > 255): " ++ (x ∷ p)))) in
          inr (e, rw long refl, refl, λ h. absurd (ground (arith, h.1)))
      | inr short ↦
          let fits : len ≤ 255 = ground arith in
          let same : len % 256 ≡ len = omega arith in
          inl ((omega arith, fits), rw short (ap (λ n. ok (n ∷ (x ∷ p))) same))
    ]

read_names-entry :
    (fuel : ℕ) (p bs : Bytes)
    → Fits p
    → read_names (suc fuel) (length p ∷ (p ++ bs))
      ≡ (read_names fuel bs >>= λ names. some (p ∷ names))
unfolding read_names
read_names-entry fuel p bs (some_bytes, small) =
    let positive : (length p == 0) ≡ false = ground arith in
    let inside : ltb (length (p ++ bs)) (length p) ≡ false = ground (arith, length-append p bs) in
    rw (positive, inside, take-append (length p) p bs refl, drop-append (length p) p bs refl) refl

-- One more name.
read_more :
    {p : Bytes} {protos : List Bytes}
    → Fits p
    → (wire : Bytes) → ((fuel : ℕ) → length protos ≤ fuel → read_names fuel wire ≡ some protos)
    → (fuel : ℕ) → length (p ∷ protos) ≤ fuel
    → read_names fuel (length p ∷ (p ++ wire)) ≡ some (p ∷ protos)
read_more fits wire read zero h = absurd (omega arith)
read_more {p} {protos} fits wire read (suc fuel) h =
    read_names-entry fuel p wire fits
    ∙ ap (λ o. o >>= λ names. some (p ∷ names)) (read fuel (omega arith))

-- The wire form that is written, or the error.
abbrev pub Encoded : List Bytes → Type 0
Encoded protos =
    ((wire : Bytes) × (encode_alpn_protocols protos ≡ ok wire)
      × All Fits protos
      × ((fuel : ℕ) → length protos ≤ fuel → read_names fuel wire ≡ some protos))
    ⊎ ((e : ClientError) × (encode_alpn_protocols protos ≡ err e)
        × (e.kind ≡ tls)
        × (¬ All Fits protos))

-- A list of protocols is written when every name has 1 to 255 bytes, and what is written is read back
-- as the same names by any reader that reads that many; otherwise it is an error of the kind tls.
pub encode_alpn_protocols-Encoded : (protos : List Bytes) → Encoded protos
unfolding encode_alpn_protocols read_names
encode_alpn_protocols-Encoded [] = inl ([], refl, tt, λ fuel h. refl)
encode_alpn_protocols-Encoded (p ∷ protos) = elim (check_protocol-cases p) [
  | inr (e, refused, kind, bad) ↦ inr (e, rw refused refl, kind, λ h. bad h.0)
  | inl (fits, entry) ↦ elim (encode_alpn_protocols-Encoded protos) [
    | inr (e, refused, kind, bad) ↦ inr (e, rw (entry, refused) refl, kind, λ h. bad h.1)
    | inl (wire, written, others, read) ↦
        inl (
          length p ∷ (p ++ wire),
          rw (entry, written) refl,
          (fits, others),
          read_more fits wire read,
        )
  ]
]
