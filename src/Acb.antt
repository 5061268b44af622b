-- ===== src/Acb.antt =====
-- The sound banks: internal/cricodecs/acb.
pub mod Reader
pub mod Utf
pub mod Afs
pub mod Fields
pub mod Track
pub mod Tracklist
