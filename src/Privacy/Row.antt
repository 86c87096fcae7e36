-- ===== src/Privacy/Row.antt =====
-- app/privacy/record.py and migrations/041_listing_asset_privacy.sql: one row of
-- listing_asset_privacy, with the two columns of listing_asset that every read joins to it.
-- Ids, keys, digests and jsonb values are texts; a timestamp is a number of microseconds.
use practice_match.Prelude.{
  ℕ, String, Bool, true, false, not, ◌&&◌, ◌||◌, Option, none, some, List, is_some, str_eq,
}
use practice_match.Privacy.State.{
  Status, ready_states, derivative_states, one_of, status_eq, Visibility, Review, Reason,
}

pub data Source : Type 0 where
  auto manual removed_by_seller : Source

-- One entry of `redaction_regions`; the coordinates are in a fixed fraction of a pixel.
pub record Region : Type 0 where
  pub id : String
  pub source : Source
  pub polygon : List (ℕ × ℕ)

pub record PrivacyRow : Type 0 where
  pub asset_id : String
  pub listing_id : String
  pub processing_status : Status
  pub processing_version : ℕ
  pub attempts : ℕ
  pub last_error : Option String
  pub original_storage_key : String
  pub redacted_storage_key : Option String
  pub redacted_sha256 : Option String
  pub confirmed_sha256 : Option String
  pub ocr : String
  pub identity_matches : String
  pub vision : String
  pub detected_regions : String
  pub redaction_regions : List Region
  pub detection_at : Option ℕ
  pub seller_review_status : Review
  pub seller_confirmed : Bool
  pub seller_confirmed_at : Option ℕ
  pub seller_confirmation_account_id : Option String
  pub buyer_visible : Bool
  pub final_privacy_state : Option Visibility
  pub reprocess_reason : Option Reason
  pub reprocess_requested_at : Option ℕ
  pub reprocessed_at : Option ℕ
  pub created_at : ℕ
  pub updated_at : ℕ
  pub display_storage_key : Option String
  pub display_sha256 : Option String

-- `confirmed_sha256 IS NOT NULL AND confirmed_sha256 = redacted_sha256` inside a CHECK: a
-- comparison with NULL is unknown, and a CHECK passes on unknown.
abbrev pub digests_agree : Option String → Option String → Bool
digests_agree none redacted = false
digests_agree (some c) none = true
digests_agree (some c) (some d) = str_eq c d

abbrev pub lap_confirmed_ck : PrivacyRow → Bool
lap_confirmed_ck r =
    not r.seller_confirmed
    || is_some r.seller_confirmed_at
      && is_some r.final_privacy_state
      && digests_agree r.confirmed_sha256 r.redacted_sha256

abbrev same_presence : Bool → Bool → Bool
same_presence true b = b
same_presence false b = not b

abbrev pub lap_stale_ck : PrivacyRow → Bool
lap_stale_ck r = same_presence (is_some r.reprocess_reason) (is_some r.reprocess_requested_at)

abbrev pub lap_status_confirmed_ck : PrivacyRow → Bool
lap_status_confirmed_ck r =
    not (status_eq r.processing_status Status.seller_confirmed) || r.seller_confirmed

abbrev pub lap_visible_ready_ck : PrivacyRow → Bool
lap_visible_ready_ck r = not r.buyer_visible || one_of ready_states r.processing_status

abbrev pub lap_ready_has_derivative_ck : PrivacyRow → Bool
lap_ready_has_derivative_ck r =
    not (one_of derivative_states r.processing_status) || is_some r.redacted_storage_key

abbrev distinct_from : Option String → String → Bool
distinct_from none s = true
distinct_from (some k) s = not (str_eq k s)

abbrev pub lap_never_the_original_ck : PrivacyRow → Bool
lap_never_the_original_ck r = distinct_from r.redacted_storage_key r.original_storage_key

-- The six table constraints of migration 041.
unfoldable pub checks : PrivacyRow → Bool
checks r =
    lap_confirmed_ck r
    && lap_stale_ck r
    && lap_status_confirmed_ck r
    && lap_visible_ready_ck r
    && lap_ready_has_derivative_ck r
    && lap_never_the_original_ck r
