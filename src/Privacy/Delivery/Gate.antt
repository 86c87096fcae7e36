-- ===== src/Privacy/Delivery/Gate.antt =====
-- app/privacy/gate.py and app/privacy/delivery.py agree on what "ready" means.
use practice_match.Prelude.{String, ◌≡◌, ◌≢◌, ◌↔◌, true, false, Option, none, some, [], arith}
use practice_match.Privacy.State.{Visibility, show, not_show}
use practice_match.Privacy.Row.{PrivacyRow}
use practice_match.Privacy.Delivery.{buyer_variant, offences, has_slash, truthy}

-- The photograph's keys and digests are there and are not empty texts.
pub record HasObjects (p : PrivacyRow) : Type 0 where
  pub redacted_key : truthy p.redacted_storage_key ≡ true
  pub redacted_sha : truthy p.redacted_sha256 ≡ true
  pub display_key : truthy p.display_storage_key ≡ true
  pub display_sha : truthy p.display_sha256 ≡ true

-- Of a visible photograph that is not flagged stale and whose objects are there, under an entry
-- with no slash, the publishing gate has no objection exactly when a buyer without a grant is served something.
pub offences-nil_iff_served :
    (visibility : Visibility) (p : PrivacyRow) (entry : String) (seed : Option String)
    → has_slash entry ≡ false
    → p.buyer_visible ≡ true
    → p.reprocess_reason ≡ none
    → HasObjects p
    → (offences visibility entry (some p) ≡ [])
      ↔ (buyer_variant visibility (some p) entry seed false ≢ none)
unfolding offences buyer_variant
offences-nil_iff_served show p entry seed plain visible fresh objects =
    (λ e. ground arith, λ e. ground arith)
offences-nil_iff_served not_show p entry seed plain visible fresh objects =
    (λ e. ground arith, λ e. ground arith)
