-- ===== src/Listing/Transitions.antt =====
-- app/api/seller_listings.py: create, submit_listing and set_status, each in its one transaction.
use Prim.Native.String
use practice_match.Prelude.{
  ℕ, String, Bool, true, false, not, ◌&&◌, Option, none, some, List, [], ◌∷◌, is_some,
  if◌then◌else◌,
}
use practice_match.Privacy.State.{not_show}
use practice_match.Listing.Row.{
  Listing, Status, draft, in_review, published, paused, withdrawn, declined, status_eq, among,
  seller,
}
use practice_match.Listing.Refusal.{
  Run, gives, refuses, escapes, ◌>>=◌, pure, bad_request, wrong_state, incomplete,
}
use practice_match.Listing.Store.{
  Db, Entry, submitted, paused as pause_entry, republished, withdrawn as withdraw_entry, Mail,
  listing_submitted, update_listing, locked_row, claim_from_seed, owned_by, log, enqueue, put,
}
use practice_match.Listing.Handler.{
  World, Effects, refuse_if, refuse_unready_photographs, no_effects, moved_to, published_if,
}

-- The row of `create`; `id` is the one that gen_random_uuid gives.
abbrev pub created : ℕ → String → String → Listing
created now id account = record {
  id = id;
  slug = String.◌++◌ "listing-" id;
  source = seller;
  seller_id = some account;
  status = draft;
  name = none;
  city = none;
  zip = none;
  area = none;
  state = none;
  market = none;
  type = none;
  ownership = none;
  facility_type = none;
  bldg = none;
  hours = none;
  services = none;
  facility = none;
  est = none;
  price = none;
  rev = none;
  docs = none;
  rooms = none;
  sqft = none;
  name_disclosed = false;
  location_disclosed = false;
  rev_disclosed = false;
  documents_disclosed = false;
  visibility = not_show;
  photos = [];
  submitted_at = none;
  listed_at = now;
  updated_at = now;
}

unfoldable pub create : ℕ → String → String → Db → Run (Db × Effects)
create now id account db =
    if is_some (db.listing id)
    then escapes
    else gives (put id (created now id account) db, record no_effects { drops_list_cache = false })

-- `_complete_enough`
unfoldable pub complete_enough : Listing → Run (Unit {0})
complete_enough r =
    if not (
      is_some r.name
      && is_some r.est
      && is_some r.type
      && is_some r.city
      && is_some r.zip
      && is_some r.price)
    then refuses incomplete
    else if not (is_some r.rev) && r.rev_disclosed
    then refuses incomplete
    else if not (is_some r.sqft)
    then refuses incomplete
    else gives tt

abbrev or_now : Option ℕ → ℕ → ℕ
or_now none now = now
or_now (some at) now = at

-- CASE WHEN keep AND submitted_at IS NOT NULL THEN submitted_at ELSE now() END
abbrev pub stamp : ℕ → Bool → Option ℕ → ℕ
stamp now keeps at = if keeps then or_now at now else now

-- The assignments of the UPDATE of `submit_listing`.
abbrev pub submission : ℕ → Bool → Listing → Listing
submission now keeps r = record r {
  status = in_review;
  updated_at = now;
  submitted_at = some (stamp now keeps r.submitted_at);
}

-- SUBMITTABLE_FROM
abbrev pub submittable_from : List Status
submittable_from = draft ∷ declined ∷ in_review ∷ []

abbrev pub receipt : String → String → ℕ → Mail
receipt id to at = record { listing_id = id; template = listing_submitted at; to = to; reason = "" }

unfoldable pub submit_listing : World → ℕ → String → String → Db → Run (Db × Effects)
unfolding refuse_unready_photographs complete_enough
submit_listing world now id account db = do
  row ← locked_row id account db
  refused ← refuse_if (not (among submittable_from row.status)) wrong_state
  refused ← complete_enough row
  refused ← refuse_unready_photographs row db
  let keeps = status_eq row.status in_review
  wrote ← update_listing id (owned_by account) (submission now keeps) db
  let stamped = stamp now keeps row.submitted_at
  claimed ← claim_from_seed id account (enqueue (receipt id (world.email account) stamped) wrote)
  pure (log (submitted id row.status in_review) claimed, no_effects)

pub data Action : Type 0 where
  pause republish withdraw : Action

-- TRANSITIONS
abbrev pub allowed_from : Action → List Status
allowed_from pause = published ∷ []
allowed_from republish = paused ∷ []
allowed_from withdraw = draft ∷ in_review ∷ published ∷ paused ∷ declined ∷ []

abbrev pub after : Action → Status
after pause = paused
after republish = published
after withdraw = withdrawn

abbrev pub recorded : Action → String → Status → Status → Entry
recorded pause = pause_entry
recorded republish = republished
recorded withdraw = withdraw_entry

abbrev pub is_republish : Action → Bool
is_republish republish = true
is_republish _ = false

unfoldable pub set_status : World → ℕ → String → String → Option Action → Db → Run (Db × Effects)
unfolding refuse_unready_photographs published_if
set_status world now id account none db = refuses bad_request
set_status world now id account (some action) db = do
  row ← locked_row id account db
  refused ← refuse_if (not (among (allowed_from action) row.status)) wrong_state
  let to_market = status_eq (after action) published
  refused ← if to_market then refuse_unready_photographs row db else gives tt
  wrote ← update_listing id (owned_by account) (moved_to now (after action)) db
  marked ← published_if to_market now id wrote
  claimed ← claim_from_seed id account marked
  pure (
    log (recorded action id row.status (after action)) claimed,
    record no_effects { geocodes = is_republish action && not (db.located id) },
  )
