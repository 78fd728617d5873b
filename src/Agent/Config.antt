-- ===== src/Agent/Config.antt =====
-- config_management_service.py: the texts of configurations, their cleaning and their comparison.
pub mod Lines
pub mod Clean
pub mod Cleaned
pub mod Diff
pub mod Compared
