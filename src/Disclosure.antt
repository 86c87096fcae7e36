-- ===== src/Disclosure.antt =====
-- app/disclosure: who may see what of a confidential listing.
pub mod Levels
pub mod Request
pub mod Access
pub mod Requests
