-- ===== src/Unpack.antt =====
-- What the client does to one asset bundle: internal/unpack.
pub mod Obfuscator
pub mod Paths
pub mod Manifest
pub mod Concurrency
pub mod Download
pub mod Fetch
pub mod Export
pub mod Action
pub mod Process
pub mod Wav
