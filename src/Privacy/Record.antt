-- ===== src/Privacy/Record.antt =====
-- app/privacy/record.py: the readers and writers of the table listing_asset_privacy, each with
-- the source's name. A writer answers the table after its statement and what it returns.
use practice_match.Prelude.{
  ℕ, String, Bool, ◌&&◌, ◌||◌, Option, none, some, List, [], ◌∷◌, map, keep, is_some, str_eq, ltb,
  length, any, not, false, if◌then◌else◌,
}
use practice_match.Sql.{
  Outcome, ok, raised, unique_violation, ◌>>=◌, update, insert as insert_row, fetch_one,
}
use practice_match.Privacy.State.{
  Status, uploaded, processing, scanned, redaction_generated, processing_failed, redaction_failed,
  reprocess_required, ready_states, all_states, error_states, fail_sources, exhaust_sources, one_of,
  status_eq, lost_after, unstarted_after, retry_after, max_attempts, Visibility, Reason,
}
use practice_match.Privacy.Row.{PrivacyRow, Region, checks}
use practice_match.Privacy.Assign.{
  Scan, inserted, claims, claimed, scan_recorded, scan_recorded_in_place, derivative_recorded,
  made_ready, failed, exhausted, confirms, confirmed, confirmation_reset, reset_to_retry,
  reset_to_reprocess, flagged, stale_in_listing, stale_version, lost_task, recovered,
  advanced_in_place, attempt_bumped, publishable, marked_published, may_set_visible, visibility_set,
  is_asset, one_in, older_than,
}

abbrev pub Table : Type 0
Table = List PrivacyRow

-- PROCESSING_VERSION
abbrev pub processing_version : ℕ
processing_version = 2

-- NULL equals nothing.
abbrev pub same_text : Option String → Option String → Bool
same_text none t = false
same_text (some s) none = false
same_text (some s) (some t) = str_eq s t

-- Two rows of the same photograph, or with the same original, or with the same derivative, cannot
-- both be there.
abbrev pub clashes : PrivacyRow → PrivacyRow → Bool
clashes r s =
    str_eq r.asset_id s.asset_id
    || str_eq r.original_storage_key s.original_storage_key
    || same_text r.redacted_storage_key s.redacted_storage_key

-- Another photograph's row has the derivative's key.
abbrev pub holds_key : String → String → PrivacyRow → Bool
holds_key asset_id key r = not (is_asset asset_id r) && same_text r.redacted_storage_key (some key)

-- UPDATE listing_asset_privacy …; of the columns of a unique index only `record_derivative` writes one
-- that is not NULL.
abbrev pub write : (PrivacyRow → Bool) → (PrivacyRow → PrivacyRow) → Table → Outcome (Table × Table)
write selects set table = update checks selects set table

-- What a statement answers beside the table: nothing, a row, whether there is one, how many.
abbrev pub returning {ℓ} :
    {A : Type ℓ} → (Table → A) → Outcome (Table × Table) → Outcome (Table × A)
returning f result = result >>= λ p. ok (p.0, f p.1)

abbrev nothing : Table → Unit {0}
nothing rows = tt

abbrev attempts_of : Option PrivacyRow → ℕ
attempts_of none = 0
attempts_of (some r) = r.attempts

abbrev attempts_now : Option PrivacyRow → Option ℕ
attempts_now none = none
attempts_now (some r) = some r.attempts

abbrev ids : Table → List String
ids rows = map (λ r. r.asset_id) rows

unfoldable pub insert :
    ℕ → String → String → String → ℕ → Option String → Option String → Table → Outcome Table
unfolding inserted
insert now asset_id listing_id original_storage_key version display_key display_sha table =
    insert_row checks clashes
      (inserted now asset_id listing_id original_storage_key version display_key display_sha) table

unfoldable pub read : String → Table → Option PrivacyRow
read asset_id table = fetch_one (keep (is_asset asset_id) table)

unfoldable pub claim : ℕ → String → ℕ → Table → Outcome (Table × Option PrivacyRow)
claim now asset_id version table =
    returning fetch_one (write (claims now asset_id version) (claimed now) table)

unfoldable pub record_scan : ℕ → String → Scan → Table → Outcome (Table × Unit {0})
record_scan now asset_id scan table =
    returning nothing (write (one_in (processing ∷ []) asset_id) (scan_recorded now scan) table)

unfoldable pub record_scan_in_place : ℕ → String → Scan → Table → Outcome (Table × Unit {0})
record_scan_in_place now asset_id scan table =
    returning nothing (write (one_in ready_states asset_id) (scan_recorded_in_place now scan) table)

unfoldable pub record_derivative :
    ℕ → String → String → String → List Region → Table → Outcome (Table × Unit {0})
record_derivative now asset_id key sha256 regions table =
    if any (holds_key asset_id key) table && any (one_in (scanned ∷ []) asset_id) table
    then raised unique_violation
    else returning nothing
        (write (one_in (scanned ∷ []) asset_id) (derivative_recorded now key sha256 regions) table)

unfoldable pub mark_ready : ℕ → String → Bool → ℕ → Table → Outcome (Table × Unit {0})
mark_ready now asset_id visible version table =
    returning nothing
      (write (one_in (redaction_generated ∷ []) asset_id) (made_ready now visible version) table)

unfoldable pub fail : ℕ → String → Status → String → Table → Outcome (Table × ℕ)
fail now asset_id state code table =
    returning (λ rows. attempts_of (fetch_one rows))
      (write (one_in (fail_sources state) asset_id) (failed now state code) table)

unfoldable pub exhaust : ℕ → String → String → Table → Outcome (Table × ℕ)
exhaust now asset_id code table =
    returning length (write (one_in exhaust_sources asset_id) (exhausted now code) table)

unfoldable pub confirm : ℕ → String → String → Visibility → Bool → Table → Outcome (Table × Bool)
confirm now asset_id account_id visibility is_edited table =
    returning (λ rows. is_some (fetch_one rows))
      (write (confirms asset_id) (confirmed now account_id visibility is_edited) table)

unfoldable pub reset_confirmation :
    ℕ → String → Option (List Region) → Table → Outcome (Table × Bool)
reset_confirmation now asset_id regions table =
    returning (λ rows. is_some (fetch_one rows))
      (write (one_in ready_states asset_id) (confirmation_reset now regions) table)

unfoldable pub reset_for_retry : ℕ → String → Table → Outcome (Table × Bool)
reset_for_retry now asset_id table =
    returning (λ rows. is_some (fetch_one rows))
      (write (one_in error_states asset_id) (reset_to_retry now) table)

unfoldable pub reset_for_reprocess : ℕ → String → Table → Outcome (Table × Unit {0})
reset_for_reprocess now asset_id table =
    returning nothing (write (one_in all_states asset_id) (reset_to_reprocess now) table)

unfoldable pub flag_stale : ℕ → String → Reason → Table → Outcome (Table × List String)
flag_stale now listing_id reason table =
    returning ids (write (stale_in_listing listing_id) (flagged now reason) table)

unfoldable pub flag_stale_version : ℕ → Reason → Table → Outcome (Table × List String)
flag_stale_version now reason table =
    returning ids (write (stale_version processing_version) (flagged now reason) table)

unfoldable pub advance_in_place :
    ℕ → String → String → ℕ → List Region → Table → Outcome (Table × ℕ)
advance_in_place now asset_id sha256 version regions table =
    returning length
      (write (one_in ready_states asset_id) (advanced_in_place now sha256 version regions) table)

unfoldable pub bump_attempt : ℕ → String → Table → Outcome (Table × Option ℕ)
bump_attempt now asset_id table =
    returning (λ rows. attempts_now (fetch_one rows))
      (write (one_in ready_states asset_id) (attempt_bumped now) table)

unfoldable pub mark_published : ℕ → String → Table → Outcome (Table × Unit {0})
mark_published now listing_id table =
    returning nothing (write (publishable listing_id) (marked_published now) table)

unfoldable pub set_visibility : ℕ → String → Bool → Table → Outcome (Table × Unit {0})
set_visibility now asset_id visible table =
    returning nothing (write (may_set_visible asset_id visible) (visibility_set now visible) table)

-- The four sweeper rules that only look: the predicate, and the window on `updated_at`.
pub record SweepRule : Type 0 where
  pub predicate : PrivacyRow → Bool
  pub window : ℕ

abbrev pub unstarted_rule : SweepRule
unstarted_rule = record {
  predicate = λ r. status_eq r.processing_status uploaded;
  window = unstarted_after;
}

abbrev pub retry_rule : SweepRule
retry_rule = record {
  predicate = λ r.
      one_of (processing_failed ∷ redaction_failed ∷ []) r.processing_status
      && ltb r.attempts max_attempts;
  window = retry_after;
}

abbrev pub reprocess_rule : SweepRule
reprocess_rule = record {
  predicate = λ r. status_eq r.processing_status reprocess_required;
  window = lost_after;
}

abbrev pub flagged_rule : SweepRule
flagged_rule = record {
  predicate = λ r. one_of ready_states r.processing_status && is_some r.reprocess_reason;
  window = lost_after;
}

unfoldable pub look : SweepRule → ℕ → Table → List String
look rule now table = ids (keep (λ r. rule.predicate r && older_than rule.window now r) table)

pub record Candidates : Type 0 where
  pub unstarted : List String
  pub retry : List String
  pub reprocess : List String
  pub flagged : List String
  pub lost : List String
  pub version : List String

-- The connection is in autocommit: each statement sees the table that the one before it left.
unfoldable pub sweep_candidates : ℕ → Table → Outcome (Table × Candidates)
unfolding look flag_stale_version
sweep_candidates now table = returning ids (write (lost_task now) (recovered now) table) >>= λ p.
    flag_stale_version now Reason.version p.0 >>= λ q. ok (
      q.0,
      record {
        unstarted = look unstarted_rule now table;
        retry = look retry_rule now table;
        reprocess = look reprocess_rule now table;
        flagged = look flagged_rule now table;
        lost = p.1;
        version = q.1;
      },
    )
