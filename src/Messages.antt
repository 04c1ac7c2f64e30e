-- ===== src/Messages.antt =====
-- The messages of the block exchange protocol, lib/protocol/bep_*.go, and their forms in
-- internal/gen/bep.
mod Tests
pub mod Index
pub mod Progress
pub mod Requests
pub mod Cluster
