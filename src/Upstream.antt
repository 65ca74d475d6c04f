-- ===== src/Upstream.antt =====
-- src/proxy/client.rs: the client for upstream providers.
pub mod Utf8
pub mod Decoding
pub mod Retry
pub mod Attempts
pub mod Waits
pub mod Hosts
pub mod Forward
pub mod Guarded
pub mod Gateway
mod Tests
