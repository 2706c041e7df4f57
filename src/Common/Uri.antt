-- ===== src/Common/Uri.antt =====
-- A parsed `http::Uri`, as far as the source reads it.
use blasthttp.Common.{Option}
use blasthttp.Common.Bytes.{Bytes}

-- `text` is what it prints as.
pub record Uri : Type 0 where
  pub scheme : Option Bytes
  pub authority : Option Bytes
  pub host : Option Bytes
  pub path : Bytes
  pub text : Bytes
