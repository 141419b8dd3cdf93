-- ===== src/Socket.antt =====
-- src/socket_handle.rs: the control socket of a runner, with the logs that a runner writes.
pub mod World
pub mod Handle
pub mod Frame
pub mod Quiet
pub mod Logged
pub mod Untold
pub mod Gives
pub mod Replies
pub mod Open
pub mod Waits
pub mod Channel
