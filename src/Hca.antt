-- ===== src/Hca.antt =====
-- The HCA audio decoder of internal/cricodecs/hca.
pub mod Frame
pub mod Unpack
pub mod Highband
pub mod Bitreader
pub mod Crc
pub mod Cipher
pub mod State
pub mod Decode
pub mod Header
pub mod Ath
pub mod Validate
pub mod Info
