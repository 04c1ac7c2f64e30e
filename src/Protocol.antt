-- ===== src/Protocol.antt =====
-- lib/protocol/protocol.go: what a connection does with the messages of the other device.
mod Tests
pub mod Path
pub mod Parts
pub mod Check
pub mod Walk
pub mod Filename
pub mod Dispatch
pub mod Fit
pub mod Safe
pub mod Awaiting
pub mod Slots
pub mod Answers
