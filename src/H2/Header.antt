-- ===== src/H2/Header.antt =====
-- src/h2/header.rs: a header with the knobs of the encoder.
use blasthttp.Common.{ℕ, Bool, false, Option, none}
use blasthttp.Common.Bytes.{Bytes}

pub data Indexing : Type 0 where
  with_indexing without_indexing never_indexed : Indexing

pub record Header : Type 0 where
  pub name : Bytes
  pub value : Bytes
  pub indexing : Indexing
  pub huffman_name : Option Bool
  pub huffman_value : Option Bool
  pub allow_invalid_value : Bool
  pub allow_invalid_name : Bool
  pub length_bloat_name : ℕ
  pub length_bloat_value : ℕ
  pub force_static_index : Option ℕ

-- `Header::new`
abbrev pub new : Bytes → Bytes → Header
new name value = record {
  name = name;
  value = value;
  indexing = with_indexing;
  huffman_name = none;
  huffman_value = none;
  allow_invalid_value = false;
  allow_invalid_name = false;
  length_bloat_name = 0;
  length_bloat_value = 0;
  force_static_index = none;
}
