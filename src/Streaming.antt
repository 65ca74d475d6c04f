-- ===== src/Streaming.antt =====
-- src/routes/streaming.rs: checking a request, reassembling the upstream's lines, screening them,
-- and telling the two wire formats apart.
pub mod Buffer
pub mod Reassembly
pub mod Depth
pub mod Screen
pub mod Request
mod Tests
