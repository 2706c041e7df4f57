-- ===== src/Common/Bytes.antt =====
-- Byte strings (`Vec<u8>`, `&[u8]`) as lists of numbers, and the big-endian forms of words.
use Prim.Native.Char.{code}
use Prim.Native.String.{String}
use blasthttp.Common.{[], ℕ, ◌/◌, ◌%◌, ◌^◌, ◌<◌, List, ◌∷◌}

abbrev pub Bytes : Type 0
Bytes = List ℕ

abbrev pub IsByte : ℕ → Type 0
IsByte b = b < 256

abbrev pub IsU32 : ℕ → Type 0
IsU32 v = v < 2 ^ 32

-- `u32::to_be_bytes`, followed by `rest`
abbrev pub be32 : ℕ → Bytes → Bytes
be32 v rest = v / 2 ^ 24 % 256 ∷ v / 2 ^ 16 % 256 ∷ v / 2 ^ 8 % 256 ∷ v % 256 ∷ rest

-- The bytes of an ASCII literal.
abbrev pub codes : String → Bytes
codes String.[] = []
codes (String.◌∷◌ c s) = code c ∷ codes s
