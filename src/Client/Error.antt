-- ===== src/Client/Error.antt =====
-- `ErrorKind` and `ClientError` of src/client/mod.rs, with the decimal numbers of their messages.
use blasthttp.Common.{ℕ, zero, suc, ◌+◌, ◌/◌, ◌%◌, Bool, true, false, ltb, ◌==◌, [], ◌∷◌}
use blasthttp.Common.Bytes.{Bytes}

pub data ErrorKind : Type 0 where
  connection timeout tls invalid_url too_many_redirects : ErrorKind
  status : ℕ → ErrorKind
  other : ErrorKind

abbrev pub is_retryable : ErrorKind → Bool
is_retryable connection = true
is_retryable (status code) = code == 429
is_retryable _ = false

pub record ClientError : Type 0 where
  pub message : Bytes
  pub kind : ErrorKind

-- The constructors of `ClientError`, one per kind.
abbrev pub error_of : ErrorKind → Bytes → ClientError
error_of kind message = record { message = message; kind = kind }

unfoldable pub decimal_loop : ℕ → ℕ → Bytes → Bytes
decimal_loop zero n digits = digits
decimal_loop (suc fuel) n digits = elim (ltb n 10) [
  | true ↦ (n + b'0') ∷ digits
  | false ↦ decimal_loop fuel (n / 10) ((n % 10 + b'0') ∷ digits)
]

-- A `u64` has at most twenty digits.
abbrev pub decimal : ℕ → Bytes
decimal n = decimal_loop 20 n []
