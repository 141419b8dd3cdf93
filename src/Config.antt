-- ===== src/Config.antt =====
-- src/config.rs: the `key=value` responses, and the escapes of `printf_encode`.
pub mod Unprintf
pub mod Escapes
pub mod HexEscape
pub mod Table
pub mod Collect
pub mod Form
pub mod Deserialize
pub mod Struct
