-- ===== src/Tests/Source.antt =====
-- The unit tests of the program, as tests of the model: each says whether what it asserts holds.
mod Keys
mod Bssids
mod Statuses
mod Configs
mod Docs
mod Scans
