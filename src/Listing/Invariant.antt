-- ===== src/Listing/Invariant.antt =====
-- What the handlers keep of a listing: the CHECKs of its table, and the facts beside them that
-- make them inductive.
pub mod Rows
pub mod Columns
pub mod Patched
use practice_match.Prelude.{
  String, ◌≡◌, Bool, true, not, ◌&&◌, ◌||◌, Option, none, some, ◌∷◌, [], All, is_some, arith,
}
use practice_match.Privacy.Invariant.{IsSound as IsSound_row}
use practice_match.Listing.Row.{
  Listing, published, paused, among, listing_type_check, listing_bldg_check, column_types,
  listing_submittable_ck, listing_publishable_ck, checks,
}
use practice_match.Listing.Store.{Db}

pub record IsSound (r : Listing) : Type 0 where
  pub typed : listing_type_check r ≡ true
  pub housed : listing_bldg_check r ≡ true
  pub fitting : column_types r ≡ true
  pub submittable : listing_submittable_ck r ≡ true
  -- step 2 writes the area with the city
  pub placed : (not (is_some r.city) || is_some r.area) ≡ true
  -- the first publish writes the state and the market
  pub paired : is_some r.state ≡ is_some r.market
  -- a listing on the market, or one click from it, has passed a publish
  pub settled :
      (not (among (published ∷ paused ∷ []) r.status) || is_some r.state && is_some r.sqft) ≡ true

pub IsSound-checks : (r : Listing) → IsSound r → checks r ≡ true
unfolding checks listing_submittable_ck listing_publishable_ck
IsSound-checks r h =
    ground (arith, h.typed, h.housed, h.fitting, h.submittable, h.placed, h.paired, h.settled)

abbrev pub OnRow : (Listing → Type 0) → Option Listing → Type 0
OnRow P none = Unit
OnRow P (some r) = P r

-- Every listing and every photograph's row is sound.
pub record IsSoundDb (db : Db) : Type 0 where
  pub rows : (id : String) → OnRow IsSound (db.listing id)
  pub photographs : All IsSound_row db.privacy
