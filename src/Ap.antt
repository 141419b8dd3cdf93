-- ===== src/Ap.antt =====
-- src/ap: the access point.
pub mod Types
pub mod Events
pub mod Client
pub mod Calls
pub mod Attach
pub mod Runner
pub mod Start
pub mod Setup
pub mod Served
pub mod Heard
pub mod System
pub mod Retries
pub mod Unknown
