-- ===== src/Server/Config.antt =====
-- server/src/lib.rs: the desired configuration of a client, and the requests that change it.
pub mod Buttons
pub mod Desired
pub mod Apply
pub mod Lockout
pub mod Handle
pub mod Store
pub mod Keeps
pub mod Locked
pub mod Refused
