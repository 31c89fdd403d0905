-- ===== src/Server.antt =====
-- server/src/lib.rs: the state of the server and the operations on it.
pub mod Gains
pub mod State
pub mod Alerts
pub mod Calls
pub mod Buttons
pub mod Emergency
pub mod Presses
pub mod Routes
pub mod Enrollment
pub mod Ifb
pub mod Sources
pub mod Mixing
pub mod Config
pub mod Activation
pub mod Dispatch
pub mod Transcription
