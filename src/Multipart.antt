-- ===== src/Multipart.antt =====
-- src/multipart.rs: bodies of `multipart/form-data`.
pub mod Parts
mod Quoted
mod Runs
