-- ===== src/Engine.antt =====
-- `PrivacyEngine` of src/engine.rs. The engine's own state is the ledger. The scanner, the pattern of
-- issued tokens and `serde_json` are parameters.
pub mod Slice
pub mod Plan
pub mod Apply
pub mod Protect
pub mod Purged
pub mod Valid
pub mod Passed
pub mod Errors
mod Tests
