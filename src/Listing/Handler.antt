-- ===== src/Listing/Handler.antt =====
-- app/api/seller_listings.py: what the handlers that move a listing share. The rate limit, the
-- reading of the body and the answer's payload are left out; a handler answers the tables after its
-- transaction and what it does after the commit.
use practice_match.Prelude.{ℕ, String, Bool, true, false, not, some, List, [], ◌∷◌, if◌then◌else◌}
use practice_match.Privacy.Record.{mark_published}
use practice_match.Listing.Row.{Listing, Status, in_review, published, paused, status_eq, among}
use practice_match.Listing.Refusal.{
  Run, gives, refuses, ◌>>=◌, pure, execute, photos_not_ready, Refusal,
}
use practice_match.Listing.Text.{Unicode}
use practice_match.Listing.Store.{Db, edited, not_ready, is_nil, update_listing, owned_by, log}
use practice_match.Listing.Visibility.{Bucket}

-- What a handler relies on outside the database: the tables of Unicode, the object store, and the
-- address of an account.
pub record World : Type 0 where
  pub unicode : Unicode
  pub bucket : Bucket
  pub email : String → String

-- What a handler does after its commit, when it answers: the lists' cache dropped, photographs
-- processed again, the geocoder's key cleared, the listing geocoded.
pub record Effects : Type 0 where
  pub drops_list_cache : Bool
  pub requeues : List String
  pub clears_geocode : Bool
  pub geocodes : Bool

abbrev pub refuse_if : Bool → Refusal → Run (Unit {0})
refuse_if b r = if b then refuses r else gives tt

abbrev pub no_effects : Effects
no_effects = record {
  drops_list_cache = true;
  requeues = [];
  clears_geocode = false;
  geocodes = false;
}

-- EDIT_REENTERS_REVIEW
abbrev pub reenters_review : List Status
reenters_review = published ∷ paused ∷ []

-- status = 'in_review', submitted_at = now()
abbrev pub sent_back : ℕ → Listing → Listing
sent_back now r = record r { status = in_review; submitted_at = some now; updated_at = now }

-- `refuse_unready_photographs`
unfoldable pub refuse_unready_photographs : Listing → Db → Run (Unit {0})
unfolding not_ready
refuse_unready_photographs row db =
    let offenders = not_ready db.privacy row in
    if is_nil offenders then gives tt else refuses (photos_not_ready offenders)

abbrev pub moved_to : ℕ → Status → Listing → Listing
moved_to now s r = record r { status = s; updated_at = now }

-- `mark_published`, where the listing went to the market.
unfoldable pub published_if : Bool → ℕ → String → Db → Run Db
published_if false now id db = gives db
published_if true now id db = do
  wrote ← execute (mark_published now id db.privacy)
  pure (record db { privacy = wrote.0 })

-- `take_off_market`; the row is the one that the transaction locked.
unfoldable pub take_off_market : ℕ → String → String → Listing → Db → Run (Db × Bool)
take_off_market now id account row db =
    if not (among reenters_review row.status)
    then gives (db, false)
    else update_listing id (owned_by account) (sent_back now) db >>= λ wrote.
        gives (log (edited id row.status in_review) wrote, status_eq row.status published)
