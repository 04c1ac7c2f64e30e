-- ===== src/DownloadState.antt =====
-- What devices tell each other about the files that they are downloading:
-- lib/model/sentdownloadstate.go on the device that downloads, and
-- lib/model/devicedownloadstate.go on the one that hears of it.
mod Tests
pub mod Assoc
pub mod Remote
pub mod Sent
pub mod Mirror
pub mod Round
pub mod Sync
pub mod Has
pub mod Devices
