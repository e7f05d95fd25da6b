-- ===== src/Payload.antt =====
-- The request payload (src/payload.rs).
pub mod Value
pub mod Target
pub mod Controls
pub mod Strings
pub mod Items
pub mod Dispatch
pub mod Request
pub mod Covers
pub mod Lens
pub mod Replace
pub mod Tests
