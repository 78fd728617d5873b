-- ===== src/Agent.antt =====
-- vm-agent/src/config_management_service.py: the jobs that reconfigure the routers of a lab.
pub mod Nodes
pub mod Jobs
pub mod Config
mod Tests
