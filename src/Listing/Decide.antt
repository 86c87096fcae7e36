-- ===== src/Listing/Decide.antt =====
-- app/api/admin_listings.py: decide_listing, the reviewer's decision, with bad_field and slug_for.
use Prim.Native.Char.{code}
use Prim.Native.String
use practice_match.Prelude.{
  ℕ, suc, String, Bool, true, false, not, ◌&&◌, ◌||◌, Option, none, some, List, [], ◌∷◌, any,
  is_some, str_eq, leb, ◌==◌, if◌then◌else◌,
}
use practice_match.Listing.Row.{Listing, Status, in_review, published, paused, declined, among}
use practice_match.Listing.Refusal.{
  Run, gives, refuses, escapes, ◌>>=◌, pure, not_found, wrong_state, bad_action, note_required,
  fields_required, bad_field,
}
use practice_match.Listing.Text.{holds, Unicode, is_blank, strip, strip_of, first}
use practice_match.Listing.Store.{
  Db, decided, Mail, Template, listing_published, listing_declined, update_listing, log, enqueue,
}
use practice_match.Listing.Handler.{
  World, Effects, refuse_if, refuse_unready_photographs, no_effects, moved_to, published_if,
}

pub data Verdict : Type 0 where
  publish decline unpublish : Verdict

-- The body; `action` is none where it names no decision.
pub record Decision : Type 0 where
  pub action : Option Verdict
  pub reason : String
  pub state : String
  pub market : String

-- DECISIONS
abbrev pub decidable_from : Verdict → List Status
decidable_from publish = in_review ∷ declined ∷ paused ∷ []
decidable_from decline = in_review ∷ []
decidable_from unpublish = published ∷ []

abbrev pub reaches : Verdict → Status
reaches publish = published
reaches decline = declined
reaches unpublish = paused

abbrev pub usps_states : List String
usps_states =
    "AL" ∷ "AK" ∷ "AZ" ∷ "AR" ∷ "CA" ∷ "CO" ∷ "CT" ∷ "DE" ∷ "DC" ∷ "FL" ∷ "GA" ∷ "HI" ∷ "ID" ∷ "IL"
    ∷ "IN" ∷ "IA" ∷ "KS" ∷ "KY" ∷ "LA" ∷ "ME" ∷ "MD" ∷ "MA" ∷ "MI" ∷ "MN" ∷ "MS" ∷ "MO" ∷ "MT"
    ∷ "NE" ∷ "NV" ∷ "NH" ∷ "NJ" ∷ "NM" ∷ "NY" ∷ "NC" ∷ "ND" ∷ "OH" ∷ "OK" ∷ "OR" ∷ "PA" ∷ "RI"
    ∷ "SC" ∷ "SD" ∷ "TN" ∷ "TX" ∷ "UT" ∷ "VT" ∷ "VA" ∷ "WA" ∷ "WV" ∷ "WI" ∷ "WY" ∷ []

abbrev is_upper : ℕ → Bool
is_upper n = leb 65 n && leb n 90

-- What follows the comma: a space and two capitals, which are the state.
abbrev after_comma : String → String → Bool
after_comma state (String.◌∷◌ a (String.◌∷◌ b (String.◌∷◌ c String.[]))) =
    code a == 32
    && is_upper (code b)
    && is_upper (code c)
    && str_eq (String.◌∷◌ b (String.◌∷◌ c String.[])) state
after_comma state s = false

-- MARKET_RE, and `market[-2:] == state`, with `n` characters read before the first comma. The
-- text is stripped, so that `$` is its end.
unfoldable pub market_in : String → ℕ → String → Bool
market_in state n String.[] = false
market_in state n (String.◌∷◌ c s) =
    let rest = market_in state (suc n) s in
    if code c == 44 then leb 2 n && leb n 60 && after_comma state s else rest

-- `bad_field`: whether there is a problem.
unfoldable pub bad_fields : String → String → Bool
unfolding market_in
bad_fields state market = not (any (str_eq state) usps_states) || not (market_in state 0 market)

abbrev plain : ℕ → Bool
plain n = leb 97 n && leb n 122 || leb 48 n && leb n 57

-- re.sub(r"[^a-z0-9]+", "-", s); `run` says that the characters before are replaced already.
unfoldable pub dashed : Bool → String → String
dashed run String.[] = String.[]
dashed run (String.◌∷◌ c s) =
    let kept = dashed false s in
    let skipped = dashed true s in
    if plain (code c) then String.◌∷◌ c kept else if run then skipped else String.◌++◌ "-" skipped

abbrev or_listing : String → String
or_listing s = if is_blank s then "listing" else s

-- `slug_for`
unfoldable pub slug_for : Unicode → String → String → String
unfolding dashed
slug_for unicode name id =
    let base = or_listing (strip_of (λ c. code c == 45) (dashed false (unicode.lower name))) in
    String.◌++◌ (first 80 base) (String.◌++◌ "-" (first 8 id))

-- The assignments of the first publish.
abbrev pub first_published : ℕ → String → String → String → Listing → Listing
first_published now state market slug r = record r {
  status = published;
  state = some state;
  market = some market;
  slug = slug;
  listed_at = now;
  updated_at = now;
}

abbrev pub found : Option Listing → Run Listing
found none = refuses not_found
found (some r) = gives r

abbrev pub named : Option String → Run String
named none = escapes
named (some name) = gives name

-- The UPDATE: `slug_for` reads the name.
unfoldable pub decide_row :
    World → ℕ → String → Verdict → Bool → Listing → String → String → Db → Run Db
unfolding slug_for
decide_row world now id verdict false row state market db =
    update_listing id (λ r. true) (moved_to now (reaches verdict)) db
decide_row world now id verdict true row state market db = do
  name ← named row.name
  update_listing id (λ r. true) (first_published now state market (slug_for world.unicode name id))
      db

abbrev pub template : Verdict → Status → Option Template
template publish before = some (listing_published before published)
template decline before = some (listing_declined before declined)
template unpublish before = none

abbrev pub note : Verdict → String → String
note decline reason = reason
note v reason = ""

abbrev pub letter :
    World → String → Verdict → String → Option String → Option Template → Option Mail
letter world id verdict reason (some seller) (some t) = some (record {
  listing_id = id;
  template = t;
  to = world.email seller;
  reason = note verdict reason;
})
letter world id verdict reason _ _ = none

abbrev pub mailed : Option Mail → Db → Db
mailed none db = db
mailed (some m) db = enqueue m db

abbrev pub is_publish : Verdict → Bool
is_publish publish = true
is_publish v = false

abbrev pub is_decline : Verdict → Bool
is_decline decline = true
is_decline v = false

unfoldable pub decide_verdict : World → ℕ → String → Verdict → Decision → Db → Run (Db × Effects)
unfolding decide_row bad_fields published_if refuse_unready_photographs
decide_verdict world now id verdict body db = do
  let state = strip world.unicode body.state
  let market = strip world.unicode body.market
  refused ←
      refuse_if (is_decline verdict && is_blank (strip world.unicode body.reason)) note_required
  row ← found (db.listing id)
  refused ← refuse_if (not (among (decidable_from verdict) row.status)) wrong_state
  refused ← refuse_if (is_publish verdict && not (is_some row.sqft)) fields_required
  let opens = is_publish verdict && not (is_some row.state)
  refused ← refuse_if (opens && (is_blank state || is_blank market)) fields_required
  refused ← refuse_if (opens && bad_fields state market) bad_field
  refused ← if is_publish verdict then refuse_unready_photographs row db else gives tt
  wrote ← decide_row world now id verdict opens row state market db
  marked ← published_if (is_publish verdict) now id wrote
  pure (
    log (decided id row.status (reaches verdict) body.reason) (
        mailed (letter world id verdict body.reason row.seller_id (template verdict row.status))
          marked),
    record no_effects { geocodes = is_publish verdict && not (db.located id) },
  )

abbrev is_first : Option Listing → Bool
is_first none = false
is_first (some r) = not (is_some r.state)

abbrev is_to_publish : Option Verdict → Bool
is_to_publish none = false
is_to_publish (some v) = is_publish v

-- Whether a statement is given a text with a NUL: the UPDATE of a first publish, or the audit row,
-- which takes the reason of every decision. psycopg2 raises a ValueError of it.
unfoldable pub writes_nul : World → String → Decision → Db → Bool
writes_nul world id body db =
    is_to_publish body.action
      && is_first (db.listing id)
      && holds 0 (strip world.unicode body.market)
    || holds 0 body.reason

abbrev pub decide_checked : World → ℕ → String → Decision → Db → Run (Db × Effects)
decide_checked world now id body db = elim body.action [
  | none ↦ refuses bad_action
  | some verdict ↦ decide_verdict world now id verdict body db
]

abbrev pub if_written : Bool → Run (Db × Effects) → Run (Db × Effects)
if_written nul run = run >>= λ p. if nul then escapes else gives p

-- The exception rolls the whole transaction back, whichever statement it is.
unfoldable pub decide_listing : World → ℕ → String → Decision → Db → Run (Db × Effects)
unfolding decide_verdict writes_nul
decide_listing world now id body db =
    if_written (writes_nul world id body db) (decide_checked world now id body db)
