-- ===== src/Privacy.antt =====
-- app/privacy: the privacy record of a photograph and what a buyer receives of it.
pub mod State
pub mod Keys
pub mod Row
pub mod Assign
pub mod Record
pub mod Invariant
pub mod History
pub mod Delivery
