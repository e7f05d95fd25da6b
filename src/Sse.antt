-- ===== src/Sse.antt =====
-- The transformer of server-sent events (src/sse.rs).
pub mod Text
pub mod Event
pub mod Frame
pub mod Chunks
pub mod Keeps
pub mod Display
mod Tests
