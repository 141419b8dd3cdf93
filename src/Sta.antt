-- ===== src/Sta.antt =====
-- src/sta: the station's types, requests and event loop.
pub mod Bssid
pub mod Psk
pub mod Network
pub mod Scan
pub mod Status
pub mod Client
pub mod Calls
pub mod Events
pub mod Networks
pub mod Listed
pub mod Station
pub mod Loop
pub mod System
pub mod Start
pub mod Run
pub mod Life
pub mod Script
pub mod Setup
pub mod Fail
