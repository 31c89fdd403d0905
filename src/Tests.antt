-- ===== src/Tests.antt =====
-- Tests, and the theorems at concrete inputs.
mod Packets
mod Playing
mod Samples
mod Alerting
mod Calling
mod Following
mod Transcribing
mod Mixing
mod Configuring
mod Pressing
mod Sounding
mod Requesting
mod Debouncing
