-- ===== src/Copier.antt =====
-- internal/copier: the copy workers, which keep each secondary storage caught up with the primary.
pub mod Mirror
pub mod Reading
pub mod Worker
pub mod Upkeep
