-- ===== src/Response.antt =====
-- src/response.rs: what a response is asked for.
pub mod Fields
mod Lookup
mod Lines
mod Runs
