-- ===== src/Topology.antt =====
-- central/src/services/topology_builder.py: checking a topology that was drawn, and wiring its nodes.
mod Families
mod Checks
mod Checked
mod Wiring
mod Wired
mod Capacity
mod Generated
mod Tests
