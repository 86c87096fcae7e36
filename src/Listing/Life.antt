-- ===== src/Listing/Life.antt =====
-- The life of the listings under the handlers of app/api/seller_listings.py and
-- app/api/admin_listings.py, each request one transaction, while the photographs' pipeline works.
pub mod Found
pub mod Lawful
pub mod Switch
pub mod Leaves
pub mod Saves
pub mod Moves
pub mod Decisions
pub mod Safety
pub mod Laws
use practice_match.Prelude.{ℕ, String, Option, List, [], ◌∷◌}
use practice_match.Privacy.History.{Event, step}
use practice_match.Listing.Refusal.{Run, gives, refuses, escapes, ◌>>=◌}
use practice_match.Listing.Fields.{Json, Field}
use practice_match.Listing.Store.{Db}
use practice_match.Listing.Handler.{World, Effects, no_effects}
use practice_match.Listing.Patch.{patch_step}
use practice_match.Listing.Transitions.{Action, create, submit_listing, set_status}
use practice_match.Listing.Photos.{reorder_photos}
use practice_match.Listing.Decide.{Decision, decide_listing}

-- A request, with the listing's id, the seller's account and what it carries.
pub data Request : Type 0 where
  creates : String → String → Request
  patches : String → String → ℕ → List (Field × Json) → Request
  submits : String → String → Request
  sets_status : String → String → Option Action → Request
  reorders : String → String → Option (List String) → Request
  decides : String → Decision → Request
  -- no request, but a call of a writer of listing_asset_privacy
  processes : Event → Request

unfoldable pub serve : World → ℕ → Request → Db → Run (Db × Effects)
serve world now (creates id account) db = create now id account db
serve world now (patches id account step body) db = patch_step world now id account step body db
serve world now (submits id account) db = submit_listing world now id account db
serve world now (sets_status id account action) db = set_status world now id account action db
serve world now (reorders id account ids) db = reorder_photos now id account ids db
serve world now (decides id body) db = decide_listing world now id body db
serve world now (processes e) db = gives (record db { privacy = step now e db.privacy }, no_effects)

-- The tables after the request: a refusal and an exception roll the transaction back.
abbrev pub committed : Db → Run (Db × Effects) → Db
committed db (gives p) = p.0
committed db (refuses r) = db
committed db escapes = db

unfoldable pub history : World → List (ℕ × Request) → Db → Db
unfolding serve
history world [] db = db
history world ((now, q) ∷ rest) db = history world rest (committed db (serve world now q db))
