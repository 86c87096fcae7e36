-- ===== src/Listing/Patch.antt =====
-- app/api/seller_listings.py: patch_step, the wizard's save of one step, in its one transaction.
use practice_match.Prelude.{
  ℕ, String, Bool, true, false, not, ◌&&◌, ◌||◌, Option, none, some, List, [], ◌∷◌, any, is_some,
  str_eq, ◌==◌, if◌then◌else◌,
}
use practice_match.Privacy.State.{Visibility, show, not_show}
use practice_match.Listing.Row.{
  Listing, Status, draft, in_review, published, withdrawn, status_eq, among,
}
use practice_match.Listing.Refusal.{Run, gives, ◌>>=◌, pure, wrong_state, not_submittable}
use practice_match.Listing.Fields.{
  Json, Field, Assign, sets_number, sets_text, sets_choice, sets_bldg, sets_name_disclosed,
  sets_location_disclosed, sets_rev_disclosed, sets_documents_disclosed, sets_visibility, sets_area,
  money, price, rev, count, est, docs, rooms, sqft, name, city, zip, hours, desc, facility, type,
  ownership, facility_type, columns_for,
}
use practice_match.Listing.Store.{
  Db, Entry, edited, privacy_switched, update_listing, locked_row, claim_from_seed, owned_by, log,
}
use practice_match.Listing.Visibility.{apply_visibility_change}
use practice_match.Listing.Handler.{World, Effects, refuse_if, reenters_review, sent_back}

-- Setting one column.
unfoldable pub assign : Assign → Listing → Listing
assign (sets_number (money price) v) r = record r { price = v }
assign (sets_number (money rev) v) r = record r { rev = v }
assign (sets_number (count est) v) r = record r { est = v }
assign (sets_number (count docs) v) r = record r { docs = v }
assign (sets_number (count rooms) v) r = record r { rooms = v }
assign (sets_number (count sqft) v) r = record r { sqft = v }
assign (sets_text name v) r = record r { name = v }
assign (sets_text city v) r = record r { city = v }
assign (sets_text zip v) r = record r { zip = v }
assign (sets_text hours v) r = record r { hours = v }
assign (sets_text desc v) r = record r { services = v }
assign (sets_text facility v) r = record r { facility = v }
assign (sets_choice type v) r = record r { type = some v }
assign (sets_choice ownership v) r = record r { ownership = some v }
assign (sets_choice facility_type v) r = record r { facility_type = some v }
assign (sets_bldg v) r = record r { bldg = some v }
assign (sets_name_disclosed b) r = record r { name_disclosed = b }
assign (sets_location_disclosed b) r = record r { location_disclosed = b }
assign (sets_rev_disclosed b) r = record r { rev_disclosed = b }
assign (sets_documents_disclosed b) r = record r { documents_disclosed = b }
assign (sets_visibility v) r = record r { visibility = v }
assign (sets_area v) r = record r { area = v }

unfoldable pub assign_all : List Assign → Listing → Listing
unfolding assign
assign_all [] r = r
assign_all (a ∷ out) r = assign_all out (assign a r)

-- The column of REQUIRED_ONCE_SUBMITTED is there and is None.
abbrev pub clears : Assign → Bool
clears (sets_number (money price) none) = true
clears (sets_number (count est) none) = true
clears (sets_text name none) = true
clears (sets_text city none) = true
clears (sets_text zip none) = true
clears _ = false

-- SUBMITTABLE_EXEMPT
abbrev pub exempt : List Status
exempt = draft ∷ withdrawn ∷ []

abbrev same_text : Option String → Option String → Bool
same_text none none = true
same_text (some s) (some t) = str_eq s t
same_text _ _ = false

-- `columns[name] != row[name]` of city or zip.
abbrev pub moves_address : Listing → Assign → Bool
moves_address row (sets_text city v) = not (same_text v row.city)
moves_address row (sets_text zip v) = not (same_text v row.zip)
moves_address row _ = false

abbrev pub same_visibility : Visibility → Visibility → Bool
same_visibility show show = true
same_visibility not_show not_show = true
same_visibility _ _ = false

-- The visibility that the columns set, where it is not the row's.
abbrev pub new_visibility : Listing → List Assign → Option Visibility
new_visibility row [] = none
new_visibility row (sets_visibility v ∷ out) =
    if same_visibility v row.visibility then none else some v
new_visibility row (a ∷ out) = new_visibility row out

abbrev pub touched : ℕ → Listing → Listing
touched now r = record r { updated_at = now }

-- The assignments of the UPDATE of `patch_step`.
unfoldable pub patched : ℕ → List Assign → Listing → Listing
unfolding assign_all
patched now out r =
    if among reenters_review r.status
    then sent_back now (assign_all out r)
    else touched now (assign_all out r)

abbrev pub logged_if : Bool → Entry → Db → Db
logged_if b e db = if b then log e db else db

abbrev pub switched : World → ℕ → Listing → Option Visibility → Db → Run (Db × List String)
switched world now row none db = gives (db, [])
switched world now row (some to) db = do
  wrote ← apply_visibility_change now world.bucket row.id to db.privacy
  pure (record (log (privacy_switched row.id row.visibility to) db) { privacy = wrote.0 }, wrote.1)

unfoldable pub patch_step :
    World → ℕ → String → String → ℕ → List (Field × Json) → Db → Run (Db × Effects)
unfolding patched columns_for
patch_step world now id account step body db = do
  row ← locked_row id account db
  refused ← refuse_if (status_eq row.status withdrawn) wrong_state
  out ← columns_for world.unicode step body row
  refused ← refuse_if (any clears out && not (among exempt row.status)) not_submittable
  wrote ← update_listing id (owned_by account) (patched now out) db
  let moved = step == 2 && any (moves_address row) out
  let there = record wrote { located = λ k. wrote.located k && not (moved && str_eq k id) }
  privacy ← switched world now row (new_visibility row out) there
  claimed ← claim_from_seed id account (privacy.0)
  let reentering = among reenters_review row.status
  let changed = is_some (new_visibility row out)
  pure (
    logged_if reentering (edited id row.status in_review) claimed,
    record {
      drops_list_cache = status_eq row.status published || changed;
      requeues = privacy.1;
      clears_geocode = moved;
      geocodes = false;
    },
  )
