-- ===== src/Privacy/Delivery.antt =====
-- app/privacy/delivery.py: what a buyer receives of a photograph; and app/privacy/gate.py with
-- the function listing_photos_not_ready of migrations/042_listing_publish_photos_ready_trigger.sql,
-- which decides whether a listing's photographs may be published.
pub mod Laws
pub mod Gate
use Prim.Native.Char.{code}
use Prim.Native.String
use practice_match.Prelude.{
  ℕ, String, Bool, true, false, not, ◌&&◌, ◌||◌, Option, none, some, List, [], ◌∷◌, ◌++◌, ◌==◌,
  str_eq, is_some, if◌then◌else◌,
}
use practice_match.Privacy.State.{
  Status, ready_states, confirmed_states, one_of, Visibility, show, not_show,
}
use practice_match.Privacy.Row.{PrivacyRow}

pub record Variant : Type 0 where
  pub key : String
  pub sha256 : String
  pub from_disk : Bool

-- "/" in entry
unfoldable pub has_slash : String → Bool
has_slash String.[] = false
has_slash (String.◌∷◌ c s) = code c == b'/' || has_slash s

-- Python's truth of a string or None.
abbrev pub truthy : Option String → Bool
truthy none = false
truthy (some s) = not (str_eq s "")

abbrev is_show : Visibility → Bool
is_show show = true
is_show not_show = false

-- Variant(key, sha256), once both are known to be there.
abbrev variant_of : Option String → Option String → Option Variant
variant_of (some key) (some sha256) =
    some (record { key = key; sha256 = sha256; from_disk = false })
variant_of _ _ = none

abbrev seed_variant : Visibility → String → Option String → Option Variant
seed_variant visibility entry none = none
seed_variant visibility entry (some sha256) =
    if has_slash entry && is_show visibility
    then some (record { key = entry; sha256 = sha256; from_disk = true })
    else none

unfoldable pub asset_variant : Visibility → PrivacyRow → Bool → Option Variant
asset_variant visibility asset authorized =
    if not asset.buyer_visible
    then none
    else if not (is_show visibility) && not authorized
    then (if one_of confirmed_states asset.processing_status
          && (truthy asset.redacted_storage_key && truthy asset.redacted_sha256)
        then variant_of asset.redacted_storage_key asset.redacted_sha256
        else none)
    else if one_of ready_states asset.processing_status
        && (truthy asset.display_storage_key && truthy asset.display_sha256)
    then variant_of asset.display_storage_key asset.display_sha256
    else none

unfoldable pub buyer_variant :
    Visibility → Option PrivacyRow → String → Option String → Bool → Option Variant
unfolding has_slash asset_variant
buyer_variant visibility none entry seed_sha authorized = seed_variant visibility entry seed_sha
buyer_variant visibility (some asset) entry seed_sha authorized =
    asset_variant visibility asset authorized

-- The statuses that the gate reports of one entry.
pub data Offence : Type 0 where
  seed_unprocessed no_privacy_row stale : Offence
  not_ready : Status → Offence

abbrev seed_offences : Visibility → List Offence
seed_offences show = []
seed_offences not_show = seed_unprocessed ∷ []

abbrev unready : Visibility → PrivacyRow → Bool
unready not_show p =
    not (one_of confirmed_states p.processing_status) || not (is_some p.redacted_storage_key)
unready show p = not (one_of ready_states p.processing_status)

-- The three arms of the UNION ALL, of one entry and the row that its text names in the listing.
unfoldable pub offences : Visibility → String → Option PrivacyRow → List Offence
unfolding has_slash
offences visibility entry none =
    if has_slash entry then seed_offences visibility else no_privacy_row ∷ []
offences visibility entry (some p) =
    (if has_slash entry
      then seed_offences visibility
      else if unready visibility p
      then not_ready p.processing_status ∷ []
      else [])
    ++ (if is_some p.reprocess_reason then stale ∷ [] else [])

abbrev first_row : (PrivacyRow → Bool) → List PrivacyRow → Option PrivacyRow
first_row p [] = none
first_row p (r ∷ rs) = if p r then some r else first_row p rs

-- `p.asset_id::text = e AND p.listing_id = l_id`; asset_id is the table's primary key.
abbrev pub row_of : String → String → List PrivacyRow → Option PrivacyRow
row_of listing_id entry table =
    first_row (λ r. str_eq r.asset_id entry && str_eq r.listing_id listing_id) table

abbrev pub with_entry : String → List Offence → List (String × Offence)
with_entry e [] = []
with_entry e (o ∷ os) = (e, o) ∷ with_entry e os

-- The entries of `listing.photos`, null slots left out.
unfoldable pub photos_not_ready :
    Visibility → String → List String → List PrivacyRow → List (String × Offence)
unfolding offences
photos_not_ready visibility listing_id [] table = []
photos_not_ready visibility listing_id (e ∷ es) table =
    with_entry e (offences visibility e (row_of listing_id e table))
    ++ photos_not_ready visibility listing_id es table
