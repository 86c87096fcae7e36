-- ===== src/Listing.antt =====
-- app/api/seller_listings.py and app/api/admin_listings.py: the life of a listing, from the
-- seller's draft through the review to the market and back.
pub mod Row
pub mod Refusal
pub mod Text
pub mod Fields
pub mod Store
pub mod Visibility
pub mod Handler
pub mod Patch
pub mod Transitions
pub mod Photos
pub mod Decide
pub mod Life
pub mod Invariant
