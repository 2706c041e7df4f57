-- ===== src/Client/Inflate.antt =====
-- `decompress` of src/client/hyper.rs. The decoders of flate2 and brotli are a parameter: for a body, what
-- a decoder gives out, and the error that it then meets, if it meets one.
use blasthttp.Common.{
  ℕ, suc, ◌+◌, ◌*◌, ◌%◌, Bool, false, not, ◌&&◌, ◌||◌, if◌then◌else◌, leb, ◌==◌, Option, none, some,
  List, [], ◌∷◌, ◌++◌, length, take,
}
use blasthttp.Common.Bytes.{Bytes, codes}
use blasthttp.Common.Text.{same, is_nil, split, trim}
use blasthttp.Client.Error.{decimal}

pub data Codec : Type 0 where
  gzip deflate brotli identity : Codec

-- The decoders: deflate comes with the zlib wrapper and without.
pub data Decoder : Type 0 where
  gzip_decoder zlib_decoder deflate_decoder brotli_decoder : Decoder

pub data Inflated : Type 0 where
  whole : Bytes → Inflated
  partial : Bytes → Bytes → Inflated
  failed : Bytes → Inflated

pub record Decoded : Type 0 where
  pub body : Bytes
  pub decode_error : Option Bytes

abbrev pub content : Bytes → Decoded
content body = record { body = body; decode_error = none }

-- `Decoded::raw` and `Decoded::partial`
abbrev pub marked : Bytes → Bytes → Decoded
marked body reason = record { body = body; decode_error = some reason }

abbrev pub from_token : Bytes → Option Codec
from_token token =
    if same token (codes "gzip") || same token (codes "x-gzip")
    then some gzip
    else if same token (codes "deflate")
    then some deflate
    else if same token (codes "br")
    then some brotli
    else if same token (codes "identity")
    then some identity
    else none

abbrev pub name : Codec → Bytes
name gzip = codes "gzip"
name deflate = codes "deflate"
name brotli = codes "brotli"
name identity = codes "identity"

-- The low nibble is the method 8, and the two bytes are a multiple of 31.
abbrev pub has_zlib_header : Bytes → Bool
has_zlib_header (cmf ∷ (flg ∷ rest)) = (cmf % 16 == 8) && ((cmf * 256 + flg) % 31 == 0)
has_zlib_header _ = false

-- The end of a bounded read: the error shows only if the bound was not reached.
abbrev pub settled : Codec → Bytes → Option Bytes → Inflated
settled codec buf none = whole buf
settled codec [] (some e) = failed (name codec ++ (codes " decompression failed: " ++ e))
settled codec (b ∷ buf) (some e) =
    partial (b ∷ buf) (name codec ++ (codes " stream did not decode cleanly: " ++ e))

-- The codings of the header, or the first that is not supported.
pub data Codings : Type 0 where
  supported : List Codec → Codings
  unsupported : Bytes → Codings

abbrev pub add_coding : Codec → Codings → Codings
add_coding codec (supported codecs) = supported (codec ∷ codecs)
add_coding codec (unsupported token) = unsupported token

abbrev pub coding_of : Option Codec → Bytes → Codings → Codings
coding_of none token others = unsupported token
coding_of (some identity) token others = others
coding_of (some codec) token others = add_coding codec others

abbrev pub codings : List Bytes → Codings
codings [] = supported []
codings (token ∷ tokens) =
    let others = codings tokens in
    if is_nil (trim token) then others else coding_of (from_token (trim token)) (trim token) others

-- `into_iter().rev()`
abbrev pub reverse_onto : List Codec → List Codec → List Codec
reverse_onto [] acc = acc
reverse_onto (c ∷ cs) acc = reverse_onto cs (c ∷ acc)

-- `get_or_insert`
abbrev pub keep_first : Option Bytes → Bytes → Option Bytes
keep_first none why = some why
keep_first (some first) why = some first

abbrev pub finished : Bytes → Option Bytes → Decoded
finished out none = content out
finished out (some reason) = marked out reason

module _ (decoder : Decoder → Bytes → Bytes × Option Bytes) (max_size : ℕ) where
  abbrev pub read_bounded : Decoder → Bytes → Codec → Inflated
  read_bounded reader bytes codec =
      let (out, error) = decoder reader bytes in
      if leb max_size (length out) then whole (take max_size out) else settled codec out error

  abbrev pub attempt : Bytes → Bool → Inflated
  attempt bytes zlib =
      if zlib
      then read_bounded zlib_decoder bytes deflate
      else read_bounded deflate_decoder bytes deflate

  -- The other form of deflate, when the first yields nothing.
  abbrev pub or_fallback : Inflated → Inflated → Inflated
  or_fallback (failed expected) (failed other) = failed expected
  or_fallback (failed expected) fallback = fallback
  or_fallback first fallback = first

  abbrev pub decode_deflate : Bytes → Inflated
  decode_deflate bytes =
      let zlib_first = has_zlib_header bytes in
      or_fallback (attempt bytes zlib_first) (attempt bytes (not zlib_first))

  unfoldable pub decode_one : Codec → Bytes → Inflated
  decode_one gzip bytes = read_bounded gzip_decoder bytes gzip
  decode_one deflate bytes = decode_deflate bytes
  decode_one brotli bytes = read_bounded brotli_decoder bytes brotli
  decode_one identity bytes = whole bytes

  -- The loop over the codings that remain.
  unfoldable pub peel : List Codec → ℕ → ℕ → Option Bytes → Bytes → Decoded
  peel [] declared peeled incomplete out = finished out incomplete
  peel (codec ∷ remaining) declared peeled incomplete out = elim (decode_one codec out) [
    | whole next ↦ peel remaining declared (suc peeled) incomplete next
    | partial next why ↦ peel remaining declared (suc peeled) (keep_first incomplete why) next
    | failed reason ↦ marked out (
        decimal peeled
        ++ (codes " of "
            ++ (decimal declared ++ (codes " content-encoding layers came off: " ++ reason))))
  ]

  abbrev pub peel_first : List Codec → ℕ → Bytes → Decoded
  peel_first [] declared bytes = content bytes
  peel_first (outermost ∷ remaining) declared bytes = elim (decode_one outermost bytes) [
    | whole out ↦ peel remaining declared 1 none out
    | partial out why ↦ peel remaining declared 1 (some why) out
    | failed reason ↦ marked bytes reason
  ]

  unfoldable pub decompress : Bytes → Bytes → Decoded
  decompress encoding bytes =
      if is_nil bytes then content [] else elim (codings (split b',' encoding)) [
        | unsupported token ↦
            marked bytes (codes "unsupported content-encoding '" ++ (token ++ codes "'"))
        | supported codecs ↦ peel_first (reverse_onto codecs []) (length codecs) bytes
      ]
