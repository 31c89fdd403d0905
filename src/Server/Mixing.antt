-- ===== src/Server/Mixing.antt =====
-- server/src/lib.rs: the mixer, which builds the frame that each client hears.
-- `f32` samples and gains are a parameter, like the `i16` samples of a frame.
pub mod Collect
pub mod Senders
pub mod Listener
pub mod Loop
pub mod Build
pub mod Routing
pub mod Priority
pub mod Heard
pub mod Outputs
pub mod Ducking
pub mod Factors
pub mod Gain
pub mod Effect
