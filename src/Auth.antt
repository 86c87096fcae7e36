-- ===== src/Auth.antt =====
-- app/auth: who is calling, and what they may do.
pub mod Permissions
pub mod Guard
pub mod Sessions
pub mod Tokens
pub mod Caller
pub mod Limits
