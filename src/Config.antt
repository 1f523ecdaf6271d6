-- ===== src/Config.antt =====
-- internal/config: the parts of the configuration that are modelled.
pub mod Glob
pub mod Window
