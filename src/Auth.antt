-- ===== src/Auth.antt =====
-- central/src/services/auth.py: accounts, groups, access rights, reset tokens and sessions.
pub mod Data
pub mod Membership
pub mod Users
pub mod Groups
pub mod Access
pub mod Managed
pub mod Session
pub mod Tokens
pub mod Admins
pub mod Members
pub mod WellFormed
pub mod Grants
pub mod OneTime
pub mod Signed
pub mod History
pub mod Load
pub mod Loaded
pub mod Listing
mod Tests
