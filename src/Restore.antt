-- ===== src/Restore.antt =====
-- internal/restore: putting a revision back, and keeping backups out meanwhile.
pub mod Guard
pub mod Auto
