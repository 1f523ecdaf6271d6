-- ===== src/Maintenance.antt =====
-- internal/maintenance: the check and prune of each storage, and the record of when they last worked.
pub mod Record
pub mod Storage
pub mod Run
