-- ===== src/Jump.antt =====
-- central/src/services/jump_access.py: the filter that lets a user reach the routers of its reservations only.
mod Rules
mod Enforced
mod Tests
