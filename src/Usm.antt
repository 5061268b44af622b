-- ===== src/Usm.antt =====
-- The USM container of videos: internal/cricodecs/usm/usm.go.
pub mod Masks
pub mod Table
pub mod Chunks
pub mod Header
pub mod Metadata
pub mod Extract
