-- ===== src/DeviceId.antt =====
-- Device IDs: lib/protocol/deviceid.go and lib/protocol/luhn.go.
mod Tests
pub mod Text
pub mod Luhn
pub mod Base32
pub mod Id
