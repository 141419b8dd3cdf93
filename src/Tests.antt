-- ===== src/Tests.antt =====
-- Runs of the model on inputs of the program's own tests, and each theorem at one input.
mod Examples
mod Launches
mod Lifetime
mod Source
mod HexCodec
mod Bounded
mod Texts
mod Runner
mod AccessPoint
mod Listing
mod System
mod Setup
mod ApSetup
mod Events
