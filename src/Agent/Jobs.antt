-- ===== src/Agent/Jobs.antt =====
-- config_management_service.py: the stores of background jobs, and the worker of a reconfiguration.
pub mod Store
pub mod Worker
pub mod Runs
