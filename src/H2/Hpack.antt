-- ===== src/H2/Hpack.antt =====
-- src/h2/hpack.rs: the HPACK encoder and decoder.
pub mod Integer
pub mod Octets
pub mod Table
pub mod Encoder
pub mod Decoder
pub mod Wire
