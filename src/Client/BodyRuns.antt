-- ===== src/Client/BodyRuns.antt =====
-- A body in two frames that is cut, and one under two codings, with decoders that drop a byte.
use blasthttp.Common.{◌≡◌, refl, Option, none, List, [], ◌∷◌, drop, arith}
use blasthttp.Common.Bytes.{Bytes, codes}
use blasthttp.Client.Body.{Frame, chunk, trailers}
use blasthttp.Client.Inflate.{gzip, brotli, Decoder, decompress, content}
use blasthttp.Client.Codings.{listing, Unpacks, IsLayered, decompress-IsLayered}

abbrev frames : List Frame
frames = chunk (codes "hel") ∷ trailers ∷ chunk (codes "lo") ∷ []

abbrev drop_one : Decoder → Bytes → Bytes × Option Bytes
drop_one decoder bytes = (drop 1 bytes, none)

-- gzip first, then brotli.
decompress-IsLayered_example :
    decompress drop_one 100 (listing (gzip ∷ brotli ∷ [])) (codes "21hi") ≡ content (codes "hi")
decompress-IsLayered_example =
    decompress-IsLayered drop_one 100 (gzip ∷ brotli ∷ []) (codes "hi") (codes "21hi") refl (
      IsLayered.applied (gzip ∷ []) brotli (codes "hi") (codes "1hi") (codes "21hi")
        (IsLayered.applied [] gzip (codes "hi") (codes "hi") (codes "1hi")
          (IsLayered.bare (codes "hi"))
          (Unpacks.by_gzip (codes "1hi") (codes "hi") (omega arith) refl))
        (Unpacks.by_brotli (codes "21hi") (codes "1hi") (omega arith) refl))

listing_test : listing (gzip ∷ brotli ∷ []) ≡ codes "gzip, br"
listing_test = refl
