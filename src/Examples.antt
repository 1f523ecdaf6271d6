-- ===== src/Examples.antt =====
-- The theorems at concrete inputs, and tests of the definitions.
pub mod Backup
pub mod Copies
pub mod Outcomes
pub mod Prune
pub mod Maintenance
pub mod Mirror
pub mod Incidents
pub mod Registry
pub mod Restore
pub mod Runlock
pub mod Worker
pub mod Forget
pub mod Glob
pub mod Hours
pub mod Health
