-- ===== src/Cookies.antt =====
-- src/cookies.rs: the cookies that one chain of redirects collects and sends.
pub mod Domain
pub mod Date
pub mod Chain
pub mod Parse
pub mod Send
mod Keeps
pub mod Bounds
mod Order
mod Match
mod Scope
mod Calendar
mod Runs
