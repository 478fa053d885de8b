-- ===== src/Ota.antt =====
-- Over-the-air updates: firmware/housepanel-giga/ota_protocol.{h,cpp}.
pub mod Bits
pub mod Hex
pub mod Crypto
pub mod Keystream
pub mod Receiver
pub mod FileSink
pub mod Toy
pub mod Server
mod Tests
