-- ===== src/User.antt =====
-- user_service and the tables that it uses: accounts, devices and session tokens.
pub mod Tables
pub mod Stoull
pub mod Service
pub mod Refresh
pub mod Sessions
pub mod Renewals
pub mod Accounts
