-- ===== src/Disclosure/Request.antt =====
-- migrations/096_request.sql: the table of disclosure requests, its constraints and its unique
-- index.
use practice_match.Prelude.{
  ℕ, String, Bool, true, not, ◌&&◌, ◌||◌, Option, none, some, is_some, str_eq, ◌==◌,
}
use practice_match.Disclosure.Levels.{requestable}

pub data Status : Type 0 where
  pending approved denied revoked : Status

abbrev status_code : Status → ℕ
status_code pending = 0
status_code approved = 1
status_code denied = 2
status_code revoked = 3

abbrev pub status_eq : Status → Status → Bool
status_eq s t = status_code s == status_code t

pub record Request : Type 0 where
  pub id : String
  pub listing_id : String
  pub buyer_user_id : String
  pub seller_user_id : String
  pub message : Option String
  pub status : Status
  pub requested_disclosure_level : String
  pub approved_disclosure_level : Option String
  pub requested_at : ℕ
  pub reviewed_at : Option ℕ
  pub reviewed_by : Option String
  pub denial_reason : Option String
  pub expires_at : Option ℕ
  pub created_at : ℕ
  pub updated_at : ℕ

abbrev null_or_requestable : Option String → Bool
null_or_requestable none = true
null_or_requestable (some level) = requestable level

abbrev is_reviewed : Request → Bool
is_reviewed r = is_some r.reviewed_at && is_some r.reviewed_by

unfoldable pub checks : Request → Bool
checks r =
    requestable r.requested_disclosure_level
    && null_or_requestable r.approved_disclosure_level
    && not (str_eq r.buyer_user_id r.seller_user_id)
    && (not (status_eq r.status approved) || is_some r.approved_disclosure_level && is_reviewed r)
    && (not (status_eq r.status denied) || is_reviewed r)
    && (not (status_eq r.status pending)
        || not (is_some r.reviewed_at)
          && not (is_some r.reviewed_by)
          && not (is_some r.approved_disclosure_level))

abbrev pub is_active : Request → Bool
is_active r = status_eq r.status pending || status_eq r.status approved

-- The primary key, and request_one_active_per_buyer_listing_uq.
unfoldable pub clashes : Request → Request → Bool
clashes r s =
    str_eq r.id s.id
    || is_active r
      && is_active s
      && str_eq r.listing_id s.listing_id
      && str_eq r.buyer_user_id s.buyer_user_id
