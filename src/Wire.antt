-- ===== src/Wire.antt =====
-- common/src/lib.rs: the audio packets, their codecs and targets, and the PCM payloads.
pub mod Types
pub mod Bytes
pub mod Packet
pub mod RoundTrip
pub mod Pcm
