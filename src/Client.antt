-- ===== src/Client.antt =====
-- src/client: the decisions of the client that need no connection.
pub mod Backoff
pub mod Error
pub mod Retry
pub mod Sanitize
pub mod Headers
pub mod Redirect
pub mod Socks
pub mod Inflate
pub mod Body
pub mod Proxy
pub mod Connect
pub mod Tls
pub mod Stream
pub mod Raw
mod Transparent
pub mod Cache
mod Keys
mod SameClient
pub mod Answer
pub mod Dispatch
mod Verbatim
pub mod Wired
mod Bounded
mod Received
mod Numbers
mod ProxyText
mod Pieces
mod NothingLost
mod Tunnelled
mod Alpn
mod Reach
mod Verified
mod ProxyRuns
mod PoolRuns
mod Layers
mod Codings
mod Attempts
mod Clean
mod Walks
mod Carried
mod Merged
mod OneCookie
mod Asked
mod Tunnel
mod Journey
mod BodyRuns
