-- ===== src/Privacy/Assign/Review.antt =====
-- app/privacy/record.py: the SET and WHERE parts of the seller's statements, of the sweeper's, and of
-- those that follow a publication or a new version.
use practice_match.Prelude.{
  ℕ, ◌+◌, String, Bool, true, false, not, ◌&&◌, ◌||◌, Option, none, some, List, [], ◌∷◌, is_some,
  str_eq, ltb,
}
use practice_match.Privacy.State.{
  Status, uploaded, processing, ready_for_review, published, ready_states, one_of, status_eq,
  lost_after, Visibility, Review, pending, looks_good, edited, Reason,
}
use practice_match.Privacy.Row.{PrivacyRow, Region}
use practice_match.Privacy.Assign.Pipeline.{reset_columns, is_asset, older_than, one_in}

abbrev review_of : Bool → Review → Review
review_of true review = edited
review_of false edited = edited
review_of false pending = looks_good
review_of false looks_good = looks_good

unfoldable pub confirms : String → PrivacyRow → Bool
confirms asset_id r =
    one_in (ready_for_review ∷ Status.seller_confirmed ∷ []) asset_id r && is_some r.redacted_sha256

unfoldable pub confirmed : ℕ → String → Visibility → Bool → PrivacyRow → PrivacyRow
confirmed now account_id visibility is_edited r = record r {
  processing_status = Status.seller_confirmed;
  seller_confirmed = true;
  seller_confirmed_at = some now;
  seller_confirmation_account_id = some account_id;
  final_privacy_state = some visibility;
  confirmed_sha256 = r.redacted_sha256;
  buyer_visible = true;
  seller_review_status = review_of is_edited r.seller_review_status;
  updated_at = now;
}

abbrev given : Option (List Region) → List Region → List Region
given none old = old
given (some regions) old = regions

unfoldable pub confirmation_reset : ℕ → Option (List Region) → PrivacyRow → PrivacyRow
confirmation_reset now regions r = record (reset_columns edited r) {
  processing_status = ready_for_review;
  redaction_regions = given regions r.redaction_regions;
  updated_at = now;
}

unfoldable pub reset_to_retry : ℕ → PrivacyRow → PrivacyRow
reset_to_retry now r = record r {
  processing_status = uploaded;
  attempts = 0;
  last_error = none;
  updated_at = now;
}

unfoldable pub reset_to_reprocess : ℕ → PrivacyRow → PrivacyRow
reset_to_reprocess now r = record (reset_columns pending r) {
  redacted_storage_key = none;
  redacted_sha256 = none;
  processing_status = uploaded;
  attempts = 0;
  last_error = none;
  reprocess_reason = none;
  reprocess_requested_at = none;
  updated_at = now;
}

unfoldable pub flagged : ℕ → Reason → PrivacyRow → PrivacyRow
flagged now reason r = record r {
  reprocess_reason = some reason;
  reprocess_requested_at = some now;
  updated_at = now;
}

unfoldable pub stale_in_listing : String → PrivacyRow → Bool
stale_in_listing listing_id r =
    str_eq r.listing_id listing_id
    && one_of ready_states r.processing_status
    && not (is_some r.reprocess_reason)

unfoldable pub stale_version : ℕ → PrivacyRow → Bool
stale_version current r =
    one_of ready_states r.processing_status
    && not (is_some r.reprocess_reason)
    && ltb r.processing_version current

unfoldable pub lost_task : ℕ → PrivacyRow → Bool
lost_task now r = status_eq r.processing_status processing && older_than lost_after now r

unfoldable pub recovered : ℕ → PrivacyRow → PrivacyRow
recovered now r = record r {
  processing_status = Status.reprocess_required;
  last_error = some "TASK_LOST";
  updated_at = now;
}

abbrev when_confirmed : Bool → String → Option String → Option String
when_confirmed true sha256 old = some sha256
when_confirmed false sha256 old = old

unfoldable pub advanced_in_place : ℕ → String → ℕ → List Region → PrivacyRow → PrivacyRow
advanced_in_place now sha256 version regions r = record r {
  redacted_sha256 = some sha256;
  confirmed_sha256 = when_confirmed r.seller_confirmed sha256 r.confirmed_sha256;
  redaction_regions = regions;
  processing_version = version;
  reprocessed_at = some now;
  reprocess_reason = none;
  reprocess_requested_at = none;
  attempts = 0;
  updated_at = now;
}

unfoldable pub attempt_bumped : ℕ → PrivacyRow → PrivacyRow
attempt_bumped now r = record r { attempts = r.attempts + 1; updated_at = now }

unfoldable pub publishable : String → PrivacyRow → Bool
publishable listing_id r =
    str_eq r.listing_id listing_id
    && one_of (ready_for_review ∷ Status.seller_confirmed ∷ []) r.processing_status
    && r.buyer_visible

unfoldable pub marked_published : ℕ → PrivacyRow → PrivacyRow
marked_published now r = record r { processing_status = published; updated_at = now }

unfoldable pub may_set_visible : String → Bool → PrivacyRow → Bool
may_set_visible asset_id visible r =
    is_asset asset_id r && (not visible || one_of ready_states r.processing_status)

unfoldable pub visibility_set : ℕ → Bool → PrivacyRow → PrivacyRow
visibility_set now visible r = record r { buyer_visible = visible; updated_at = now }
