-- ===== src/Privacy/Assign.antt =====
-- app/privacy/record.py: the SET and WHERE parts of each statement that writes a privacy row.
-- `now` is the transaction's now().
mod Pipeline
mod Review
unfoldable pub use Pipeline.*
unfoldable pub use Review.*
