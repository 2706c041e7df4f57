-- ===== src/Client/Codings.antt =====
-- `decompress` of src/client/hyper.rs on what a server does that applies codings one after the other and
-- lists them in that order.
use blasthttp.Common.{
  ℕ, ◌*◌, ◌+◌, ◌%◌, ◌≤◌, ◌≡◌, ◌==◌, refl, sym, ap, ◌∙◌, true, false, Bool-cases, inl, inr, leb,
  Option, none, List, [], ◌∷◌, ◌++◌, append-nil, length, take, take-append, All, All-append, arith,
}
use mathlib.Core.Path.{subst}
use blasthttp.Common.Bytes.{Bytes, codes}
use blasthttp.Common.Split.{split_first-whole, split_first-cons}
use blasthttp.Common.Text.{
  is_nil, contains, split, split_first, same, trim_start_matches, trim_end_matches,
}
use blasthttp.Client.Inflate.{
  Codec, gzip, deflate, brotli, identity, Decoder, gzip_decoder, zlib_decoder, deflate_decoder,
  brotli_decoder, whole, content, add_coding, codings, supported, reverse_onto, read_bounded,
  decode_one, has_zlib_header, decompress,
}
use blasthttp.Client.Layers.{Peeled, decompress-Peeled}

-- The name of a coding in `Content-Encoding`.
abbrev pub coding_name : Codec → Bytes
coding_name gzip = codes "gzip"
coding_name deflate = codes "deflate"
coding_name brotli = codes "br"
coding_name identity = codes "identity"

-- The codings in the order in which they are applied, with `, ` between them.
abbrev pub more_codings : List Codec → Bytes
more_codings [] = []
more_codings (c ∷ cs) = b',' ∷ (b' ' ∷ (coding_name c ++ more_codings cs))

abbrev pub listing : List Codec → Bytes
listing [] = []
listing (c ∷ cs) = coding_name c ++ more_codings cs

-- The codings that change a body.
abbrev Changes : Codec → Type 0
Changes gzip = Unit
Changes deflate = Unit
Changes brotli = Unit
Changes identity = ⊥

abbrev Adds : Bytes → Codec → Type 0
Adds token c = (tokens : List Bytes) → codings (token ∷ tokens) ≡ add_coding c (codings tokens)

first_token : (c : Codec) → Changes c → Adds (coding_name c) c
unfolding same trim_start_matches trim_end_matches
first_token gzip h tokens = refl
first_token deflate h tokens = refl
first_token brotli h tokens = refl
first_token identity h tokens = absurd h

later_token : (c : Codec) → Changes c → Adds (b' ' ∷ coding_name c) c
unfolding same trim_start_matches trim_end_matches
later_token gzip h tokens = refl
later_token deflate h tokens = refl
later_token brotli h tokens = refl
later_token identity h tokens = absurd h

no_comma : (c : Codec) → contains b',' (coding_name c) ≡ false
no_comma gzip = refl
no_comma deflate = refl
no_comma brotli = refl
no_comma identity = refl

codings_from :
    (token : Bytes) (c : Codec) (cs : List Codec)
    → contains b',' token ≡ false
    → Adds token c
    → All Changes cs
    → codings (split b',' (token ++ more_codings cs)) ≡ supported (c ∷ cs)
codings_from token c [] free adds h =
    ap (λ t. codings (split b',' t)) (append-nil token)
    ∙ ap (λ r. codings (r.0 ∷ r.1)) (split_first-whole b',' token free)
    ∙ adds []
codings_from token c (d ∷ ds) free adds (hd, hs) =
    ap (λ r. codings (r.0 ∷ r.1))
      (split_first-cons b',' token (b' ' ∷ (coding_name d ++ more_codings ds)) free)
    ∙ adds (split b',' ((b' ' ∷ coding_name d) ++ more_codings ds))
    ∙ ap (add_coding c)
        (codings_from (b' ' ∷ coding_name d) d ds (no_comma d) (later_token d hd) hs)

-- A listing is read as the codings that it lists.
codings-listing :
    (cs : List Codec) → All Changes cs → codings (split b',' (listing cs)) ≡ supported cs
unfolding split_first trim_start_matches trim_end_matches
codings-listing [] h = refl
codings-listing (c ∷ cs) (h, hs) =
    codings_from (coding_name c) c cs (no_comma c) (first_token c h) hs

reverse_onto-append :
    (xs : List Codec) (x : Codec) (acc : List Codec)
    → reverse_onto (xs ++ (x ∷ [])) acc ≡ x ∷ reverse_onto xs acc
reverse_onto-append [] x acc = refl
reverse_onto-append (y ∷ xs) x acc = reverse_onto-append xs x (y ∷ acc)

module _ (decoder : Decoder → Bytes → Bytes × Option Bytes) (max_size : ℕ) where
  -- The library's decoder for a coding gives a body back whole, and within the bound. A deflate body comes
  -- with the header of zlib or starts with a byte that no such header has.
  pub data Unpacks : Codec → Bytes → Bytes → Type 0 where
    by_gzip :
        (encoded inner : Bytes)
        → length inner ≤ max_size
        → decoder gzip_decoder encoded ≡ (inner, none)
        → Unpacks gzip encoded inner
    by_zlib :
        (cmf flg : ℕ) (rest inner : Bytes)
        → cmf % 16 ≡ 8
        → (cmf * 256 + flg) % 31 ≡ 0
        → length inner ≤ max_size
        → decoder zlib_decoder (cmf ∷ (flg ∷ rest)) ≡ (inner, none)
        → Unpacks deflate (cmf ∷ (flg ∷ rest)) inner
    by_deflate :
        (first : ℕ) (rest inner : Bytes)
        → (first % 16 == 8) ≡ false
        → length inner ≤ max_size
        → decoder deflate_decoder (first ∷ rest) ≡ (inner, none)
        → Unpacks deflate (first ∷ rest) inner
    by_brotli :
        (encoded inner : Bytes)
        → length inner ≤ max_size
        → decoder brotli_decoder encoded ≡ (inner, none)
        → Unpacks brotli encoded inner

  -- A body to which codings have been applied, from the first to the last.
  pub data IsLayered : List Codec → Bytes → Bytes → Type 0 where
    bare : (body : Bytes) → IsLayered [] body body
    applied :
        (codecs : List Codec) (codec : Codec) (body inner encoded : Bytes)
        → IsLayered codecs body inner
        → Unpacks codec encoded inner
        → IsLayered (codecs ++ (codec ∷ [])) body encoded

  read_bounded_whole :
      (reader : Decoder) (encoded inner : Bytes) (codec : Codec)
      → length inner ≤ max_size
      → decoder reader encoded ≡ (inner, none)
      → read_bounded decoder max_size reader encoded codec ≡ whole inner
  read_bounded_whole reader encoded inner codec small e =
      elim (Bool-cases (leb max_size (length inner))) [
        | inr f ↦ rw (e, f) refl
        | inl f ↦
            let all : take max_size inner ≡ inner =
              ap (take max_size) (sym (append-nil inner))
              ∙ take-append max_size inner [] (ground arith) in
            rw (e, f) (ap whole all)
      ]

  no_zlib_header :
      (first : ℕ) (rest : Bytes)
      → (first % 16 == 8) ≡ false
      → has_zlib_header (first ∷ rest) ≡ false
  no_zlib_header first [] h = refl
  no_zlib_header first (flg ∷ rest) h = rw h refl

  Unpacks-decode_one :
      {codec : Codec} {encoded inner : Bytes}
      → Unpacks codec encoded inner
      → decode_one decoder max_size codec encoded ≡ whole inner
  unfolding decode_one
  Unpacks-decode_one (by_gzip encoded inner small e) =
      read_bounded_whole gzip_decoder encoded inner gzip small e
  Unpacks-decode_one (by_brotli encoded inner small e) =
      read_bounded_whole brotli_decoder encoded inner brotli small e
  Unpacks-decode_one (by_zlib cmf flg rest inner method check small e) =
      let read = read_bounded_whole zlib_decoder (cmf ∷ (flg ∷ rest)) inner deflate small e in
      let header : has_zlib_header (cmf ∷ (flg ∷ rest)) ≡ true = ground arith in
      rw (header, read) refl
  Unpacks-decode_one (by_deflate first rest inner other small e) =
      let read = read_bounded_whole deflate_decoder (first ∷ rest) inner deflate small e in
      let header = no_zlib_header first rest other in rw (header, read) refl

  Unpacks-Changes :
      {codec : Codec} {encoded inner : Bytes} → Unpacks codec encoded inner → Changes codec
  Unpacks-Changes (by_gzip encoded inner small e) = tt
  Unpacks-Changes (by_zlib cmf flg rest inner method check small e) = tt
  Unpacks-Changes (by_deflate first rest inner other small e) = tt
  Unpacks-Changes (by_brotli encoded inner small e) = tt

  IsLayered-Changes :
      {codecs : List Codec} {body encoded : Bytes}
      → IsLayered codecs body encoded
      → All Changes codecs
  IsLayered-Changes (bare body) = tt
  IsLayered-Changes (applied codecs codec body inner encoded before last) =
      All-append _ codecs (codec ∷ []) (IsLayered-Changes before) (Unpacks-Changes last, tt)

  IsLayered-Peeled :
      {codecs : List Codec} {body encoded : Bytes}
      → IsLayered codecs body encoded
      → Peeled decoder max_size (reverse_onto codecs []) encoded body
  IsLayered-Peeled (bare body) = Peeled.bare body
  IsLayered-Peeled (applied codecs codec body inner encoded before last) =
      subst (λ cs. Peeled decoder max_size cs encoded body)
        (sym (reverse_onto-append codecs codec []))
        (Peeled.coded codec (reverse_onto codecs []) encoded inner body (Unpacks-decode_one last)
          (IsLayered-Peeled before))

  -- If gzip, deflate and brotli codings have been applied to a body, one after the other, and the header
  -- lists their names in that order, `decompress` gives the body back and reports no error, provided that
  -- the decoder of each gives back what it was applied to, within the bound.
  pub decompress-IsLayered :
      (codecs : List Codec) (body encoded : Bytes)
      → is_nil encoded ≡ false
      → IsLayered codecs body encoded
      → decompress decoder max_size (listing codecs) encoded ≡ content body
  decompress-IsLayered codecs body encoded full layers =
      decompress-Peeled decoder max_size (listing codecs) encoded body codecs full
        (codings-listing codecs (IsLayered-Changes layers)) (IsLayered-Peeled layers)
