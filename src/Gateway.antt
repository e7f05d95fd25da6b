-- ===== src/Gateway.antt =====
-- The parts of src/gateway.rs. What the handler of `/v1/responses` does to the world is a list of
-- effects: audit events that are recorded, and requests that are sent upstream.
pub mod Headers
pub mod Responses
pub mod Egress
pub mod Activity
pub mod Settings
pub mod Relay
pub mod Upstream
pub mod Fixed
pub mod Board
pub mod Streams
mod Tests
mod RelayTests
