-- ===== src/Privacy/Assign/Pipeline.antt =====
-- app/privacy/record.py: the SET and WHERE parts of the upload's INSERT and of the statements that the
-- pipeline runs on a photograph.
use practice_match.Prelude.{
  ℕ, ◌+◌, String, Bool, false, ◌&&◌, ◌||◌, Option, none, some, List, [], str_eq, ltb, leb,
}
use practice_match.Privacy.State.{
  Status, uploaded, processing, scanned, redaction_generated, ready_for_review, review_required,
  claimable_states, one_of, status_eq, lost_after, Review, pending,
}
use practice_match.Privacy.Row.{PrivacyRow, Region}

-- A row as the upload's INSERT leaves it: the columns' defaults, joined to the photograph's own
-- `listing_asset` row.
unfoldable pub inserted :
    ℕ → String → String → String → ℕ → Option String → Option String → PrivacyRow
inserted now asset_id listing_id original_storage_key version display_key display_sha = record {
  asset_id = asset_id;
  listing_id = listing_id;
  processing_status = uploaded;
  processing_version = version;
  attempts = 0;
  last_error = none;
  original_storage_key = original_storage_key;
  redacted_storage_key = none;
  redacted_sha256 = none;
  confirmed_sha256 = none;
  ocr = "{}";
  identity_matches = "[]";
  vision = "{\"status\": \"pending\"}";
  detected_regions = "[]";
  redaction_regions = [];
  detection_at = none;
  seller_review_status = pending;
  seller_confirmed = false;
  seller_confirmed_at = none;
  seller_confirmation_account_id = none;
  buyer_visible = false;
  final_privacy_state = none;
  reprocess_reason = none;
  reprocess_requested_at = none;
  reprocessed_at = none;
  created_at = now;
  updated_at = now;
  display_storage_key = display_key;
  display_sha256 = display_sha;
}

-- The confirmation-reset rule, `_reset_columns(review_status)`.
abbrev pub reset_columns : Review → PrivacyRow → PrivacyRow
reset_columns review r = record r {
  seller_confirmed = false;
  seller_confirmed_at = none;
  seller_confirmation_account_id = none;
  final_privacy_state = none;
  confirmed_sha256 = none;
  seller_review_status = review;
  buyer_visible = false;
}

abbrev pub is_asset : String → PrivacyRow → Bool
is_asset asset_id r = str_eq r.asset_id asset_id

-- `updated_at < now() - interval`
abbrev pub older_than : ℕ → ℕ → PrivacyRow → Bool
older_than window now r = ltb (r.updated_at + window) now

abbrev pub one_in : List Status → String → PrivacyRow → Bool
one_in states asset_id r = is_asset asset_id r && one_of states r.processing_status

unfoldable pub claims : ℕ → String → ℕ → PrivacyRow → Bool
claims now asset_id version r =
    is_asset asset_id r
    && leb r.processing_version version
    && (one_of claimable_states r.processing_status
        || status_eq r.processing_status processing && older_than lost_after now r)

unfoldable pub claimed : ℕ → PrivacyRow → PrivacyRow
claimed now r = record (reset_columns pending r) {
  processing_status = processing;
  attempts = r.attempts + 1;
  last_error = none;
  updated_at = now;
}

-- The text of the four jsonb values of a scan.
pub record Scan : Type 0 where
  pub ocr : String
  pub identity_matches : String
  pub vision : String
  pub detected_regions : String

abbrev with_scan : ℕ → Scan → PrivacyRow → PrivacyRow
with_scan now s r = record r {
  ocr = s.ocr;
  identity_matches = s.identity_matches;
  vision = s.vision;
  detected_regions = s.detected_regions;
  updated_at = now;
}

unfoldable pub scan_recorded : ℕ → Scan → PrivacyRow → PrivacyRow
scan_recorded now s r = record (with_scan now s r) { processing_status = scanned }

unfoldable pub scan_recorded_in_place : ℕ → Scan → PrivacyRow → PrivacyRow
scan_recorded_in_place now s r = with_scan now s r

unfoldable pub derivative_recorded : ℕ → String → String → List Region → PrivacyRow → PrivacyRow
derivative_recorded now key sha256 regions r = record r {
  processing_status = redaction_generated;
  redacted_storage_key = some key;
  redacted_sha256 = some sha256;
  redaction_regions = regions;
  updated_at = now;
}

unfoldable pub made_ready : ℕ → Bool → ℕ → PrivacyRow → PrivacyRow
made_ready now visible version r = record r {
  processing_status = ready_for_review;
  detection_at = some now;
  processing_version = version;
  buyer_visible = visible;
  updated_at = now;
}

unfoldable pub failed : ℕ → Status → String → PrivacyRow → PrivacyRow
failed now state code r = record r {
  processing_status = state;
  last_error = some code;
  updated_at = now;
}

unfoldable pub exhausted : ℕ → String → PrivacyRow → PrivacyRow
exhausted now code r = record (reset_columns pending r) {
  processing_status = review_required;
  last_error = some code;
  updated_at = now;
}
