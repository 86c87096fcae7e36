-- ===== src/Tests.antt =====
-- Runs of the model on concrete inputs, one module per part of the backend.
mod Privacy
mod Disclosure
mod Auth
mod Census
mod Tokens
mod Listing
mod Media
