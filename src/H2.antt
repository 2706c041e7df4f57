-- ===== src/H2.antt =====
-- The probe builder of src/h2: frames, HPACK and the Huffman code.
pub mod Frame
pub mod Huffman
pub mod Header
pub mod Hpack
pub mod Probe
mod Tests
