-- ===== src/Listing/Store.antt =====
-- The tables that the listing handlers read and write, with the trigger
-- listing_publish_photos_ready of migrations/042_listing_publish_photos_ready_trigger.sql. The
-- table listing is a map from its primary key; the unique index on slug is not modelled.
use practice_match.Prelude.{
  ℕ, String, Bool, true, false, not, ◌&&◌, ◌||◌, Option, none, some, List, [], ◌∷◌, any, str_eq,
  ◌==◌, if◌then◌else◌,
}
use practice_match.Privacy.State.{Visibility}
use practice_match.Privacy.Record.{Table}
use practice_match.Privacy.Delivery.{Offence, photos_not_ready}
use practice_match.Listing.Row.{Listing, Status, published, status_eq, seed, seller, Source, checks}
use practice_match.Listing.Refusal.{Run, gives, refuses, escapes, not_found}

pub data Template : Type 0 where
  listing_submitted : ℕ → Template
  listing_published listing_declined : Status → Status → Template

-- One row of email_outbox. The idempotency key is the listing's id and the template with what the
-- template carries here: the stamp, or the two states.
pub record Mail : Type 0 where
  pub listing_id : String
  pub template : Template
  pub to : String
  pub reason : String

-- What the handlers write to audit_log, by the action's name.
pub data Entry : Type 0 where
  edited submitted paused republished withdrawn : String → Status → Status → Entry
  privacy_switched : String → Visibility → Visibility → Entry
  decided : String → Status → Status → String → Entry

pub record Db : Type 0 where
  pub listing : String → Option Listing
  pub privacy : Table
  -- listings with a row of practice_location
  pub located : String → Bool
  pub outbox : List Mail
  pub audit_log : List Entry

-- The entries of `listing.photos`, null slots left out.
unfoldable pub entries : List (Option String) → List String
entries [] = []
entries (none ∷ es) = entries es
entries (some e ∷ es) = e ∷ entries es

abbrev pub is_nil {ℓ} : {A : Type ℓ} → List A → Bool
is_nil [] = true
is_nil (x ∷ xs) = false

-- gate.photos_not_ready of the listing.
unfoldable pub not_ready : Table → Listing → List (String × Offence)
unfolding entries
not_ready privacy r = photos_not_ready r.visibility r.id (entries r.photos) privacy

-- The trigger refuses the new row.
unfoldable pub blocked : Table → Listing → Listing → Bool
unfolding not_ready
blocked privacy old new =
    not (status_eq old.status published)
    && status_eq new.status published
    && not (is_nil (not_ready privacy new))

abbrev pub put : String → Listing → Db → Db
put id r db = record db { listing = λ k. if str_eq k id then some r else db.listing k }

abbrev rewritten : String → (Listing → Bool) → (Listing → Listing) → Db → Option Listing → Run Db
rewritten id selects set db none = gives db
rewritten id selects set db (some r) =
    if not (selects r)
    then gives db
    else if blocked db.privacy r (set r) || not (checks (set r))
    then escapes
    else gives (put id (set r) db)

-- UPDATE listing SET … WHERE id = … AND …
unfoldable pub update_listing : String → (Listing → Bool) → (Listing → Listing) → Db → Run Db
update_listing id selects set db = rewritten id selects set db (db.listing id)

abbrev pub is : Option String → String → Bool
is none account = false
is (some a) account = str_eq a account

abbrev pub owned_by : String → Listing → Bool
owned_by account r = is r.seller_id account

abbrev owned_or_missing : String → Option Listing → Run Listing
owned_or_missing account none = refuses not_found
owned_or_missing account (some r) = if owned_by account r then gives r else refuses not_found

-- `locked_row`; an id that is no uuid names no row.
unfoldable pub locked_row : String → String → Db → Run Listing
locked_row id account db = owned_or_missing account (db.listing id)

abbrev pub is_seed : Source → Bool
is_seed seed = true
is_seed seller = false

-- `claim_from_seed`
unfoldable pub claim_from_seed : String → String → Db → Run Db
unfolding update_listing
claim_from_seed id account db =
    update_listing id (λ r. owned_by account r && is_seed r.source)
      (λ r. record r { source = seller }) db

abbrev pub log : Entry → Db → Db
log e db = record db { audit_log = e ∷ db.audit_log }

abbrev same_template : Template → Template → Bool
same_template (listing_submitted a) (listing_submitted b) = a == b
same_template (listing_published a b) (listing_published c d) = status_eq a c && status_eq b d
same_template (listing_declined a b) (listing_declined c d) = status_eq a c && status_eq b d
same_template _ _ = false

abbrev same_key : Mail → Mail → Bool
same_key m n = str_eq m.listing_id n.listing_id && same_template m.template n.template

-- `enqueue`: INSERT … ON CONFLICT (idempotency_key) DO NOTHING.
unfoldable pub enqueue : Mail → Db → Db
enqueue m db = record db {
  outbox = if any (same_key m) db.outbox then db.outbox else m ∷ db.outbox;
}
