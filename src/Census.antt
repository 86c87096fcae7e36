-- ===== src/Census.antt =====
-- app/census: the loads of the public datasets, and which vintage of each is live.
pub mod Runs
pub mod Vintage
