-- ===== src/Privacy/Invariant.antt =====
-- What every writer of app/privacy/record.py keeps of a row: the CHECK constraints of migration
-- 041, and the facts beside them that make them inductive.
pub mod Pipeline
pub mod Review
use practice_match.Prelude.{
  ℕ, String, ◌≡◌, ◌≢◌, refl, ◌∙◌, Bool, true, false, not, ◌&&◌, Option, none, some, List, [], ◌∷◌,
  arith, is_some, str_eq, eq_iff, eq_refl, Bool-cases, inl, inr,
}
use practice_match.Privacy.State.{
  Status, uploaded, processing, scanned, ready_states, all_states, error_states, fail_sources,
  exhaust_sources, confirmed_states, one_of, redaction_generated, Visibility, Reason,
}
use practice_match.Privacy.Keys.{
  Ext, original_key, display_key, redacted_key, redacted_key-ne-original_key,
}
use practice_match.Privacy.Row.{PrivacyRow, Region, checks}
use practice_match.Privacy.Assign.{
  Scan, inserted, claims, claimed, scan_recorded, scan_recorded_in_place, derivative_recorded,
  made_ready, failed, exhausted, confirms, confirmed, confirmation_reset, reset_to_retry,
  reset_to_reprocess, flagged, stale_in_listing, stale_version, lost_task, recovered,
  advanced_in_place, attempt_bumped, publishable, marked_published, may_set_visible, visibility_set,
  one_in,
}

abbrev pub IsOriginalKey : String → Type 0
IsOriginalKey key = (l : String) × (a : String) × (ext : Ext) × (key ≡ original_key l a ext)

abbrev pub IsDisplayKey : String → Type 0
IsDisplayKey key = (l : String) × (a : String) × (key ≡ display_key l a)

abbrev pub IsRedactedKey : String → Type 0
IsRedactedKey key = (l : String) × (a : String) × (key ≡ redacted_key l a)

-- Of a column that may be NULL.
abbrev pub On : (String → Type 0) → Option String → Type 0
On P none = Unit
On P (some key) = P key

pub record IsSound (r : PrivacyRow) : Type 0 where
  pub checked : checks r ≡ true
  -- a confirmation lives in the two confirmed states only
  pub settled : r.seller_confirmed ≡ true → one_of confirmed_states r.processing_status ≡ true
  -- the key and the digest of the derivative are written and cleared together
  pub paired : is_some r.redacted_storage_key ≡ is_some r.redacted_sha256
  pub original : IsOriginalKey r.original_storage_key
  pub derivative : On IsRedactedKey r.redacted_storage_key
  pub display : On IsDisplayKey r.display_storage_key

str_eq_of_ne : (s t : String) → s ≢ t → str_eq s t ≡ false
str_eq_of_ne s t h = elim (Bool-cases (str_eq s t)) [
  | inl e ↦ absurd (h ((eq_iff s t).0 e))
  | inr e ↦ e
]

pub redacted_key_fresh :
    (l a : String) (r : PrivacyRow)
    → IsSound r
    → str_eq (redacted_key l a) r.original_storage_key ≡ false
redacted_key_fresh l a r h =
    let (l', a', ext, e) = h.original in
    str_eq_of_ne _ _ (λ same. redacted_key-ne-original_key l a l' a' ext (same ∙ e))
