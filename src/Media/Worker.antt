-- ===== src/Media/Worker.antt =====
-- app/tasks/media.py: process_photo and sweep, with the functions they call.
use practice_match.Prelude.{
  ℕ, zero, suc, String, Bool, true, false, not, ◌&&◌, Option, none, some, List, [], ◌∷◌, is_some,
  leb, ◌==◌, str_eq, length, if◌then◌else◌,
}
use practice_match.Sql.{Outcome, ok, raised, value_error, ◌>>=◌}
use practice_match.Privacy.State.{
  Status, processing, processing_failed, redaction_failed, ready_states, one_of, status_eq,
  max_attempts, backoff, Visibility, show, not_show,
}
use practice_match.Privacy.Keys.{redacted_key}
use practice_match.Privacy.Row.{PrivacyRow, Region}
use practice_match.Privacy.History.{Event, history}
use practice_match.Privacy.Record.{
  Table, read, claim, record_scan, record_scan_in_place, record_derivative, mark_ready, fail,
  exhaust, advance_in_place, bump_attempt, processing_version,
}
use practice_match.Media.Scanning.{Found, Scanned, scanned, failed, scan_of}
use practice_match.Media.Union.{union_auto, fillable}
use practice_match.Media.{Engines, Worked}

-- The summary that a task answers.
pub data Summary : Type 0 where
  gone storage_unavailable in_progress already_processed : Summary
  review_required state_changed rerun_abandoned : String → Summary
  retried : Status → String → ℕ → Summary
  rerun_failed : String → ℕ → Summary
  ready : ℕ → Summary
  rerun : Bool → Summary

-- BACKOFF[attempts - 1]; index -1 is the last.
unfoldable pub delay_of : ℕ → ℕ
delay_of zero = 600
delay_of (suc n) = nth n backoff
  where
    nth : ℕ → List ℕ → ℕ
    nth n [] = 0
    nth zero (d ∷ ds) = d
    nth (suc n) (d ∷ ds) = nth n ds

module _ {Bytes Image Line Symbol Match Vision : Type 0}
    (engines : Engines Bytes Image Line Symbol Match Vision) where
  -- `meanwhile n` are the writes of other actors before the run's n-th next statement.
  module _ (meanwhile : ℕ → List (ℕ × Event)) (now version : ℕ) where
    abbrev pub State : Type 0
    State = Worked Bytes

    -- The table as the n-th statement finds it.
    abbrev pub at : ℕ → State → Table
    at n s = history (meanwhile n) s.table

    abbrev pub enqueued : String → ℕ → State → State
    enqueued asset_id delay s = record s {
      queue = record { asset_id = asset_id; version = version; countdown = delay } ∷ s.queue;
    }

    abbrev pub exhausted_or_changed : ℕ → PrivacyRow → String → State → Outcome (State × Summary)
    exhausted_or_changed n row code s = exhaust now row.asset_id code (at n s) >>= λ wrote. ok (
      record s { table = wrote.0 },
      if wrote.1 == 0 then state_changed code else review_required code,
    )

    -- `_retry_or_exhaust`
    unfoldable pub retry_or_exhaust :
        ℕ → PrivacyRow → Status → String → State → Outcome (State × Summary)
    retry_or_exhaust n row state code s =
        if leb max_attempts row.attempts
        then exhausted_or_changed n row code s
        else fail now row.asset_id state code (at n s) >>= λ wrote.
            let left : State = record s { table = wrote.0 } in
            ok (
              if wrote.1 == 0 then (left, state_changed code) else (
                enqueued row.asset_id (delay_of row.attempts) left,
                retried state code (delay_of row.attempts),
              ))

    abbrev is_show : Visibility → Bool
    is_show show = true
    is_show not_show = false

    -- `_store_object`
    abbrev stored : String → Bytes → State → State
    stored key body s = record s { objects = (key, body) ∷ s.objects }

    abbrev pub finished :
        PrivacyRow → Found Bytes → Bytes → String → State → Outcome (State × Summary)
    finished row found body digest s =
        let key = redacted_key row.listing_id row.asset_id in
        record_derivative now row.asset_id key digest found.regions (at 3 s) >>= λ wrote.
        let named : State = record s { table = wrote.0 } in
        mark_ready now row.asset_id (is_show found.visibility) processing_version (at 4 named)
        >>= λ marked. ok (record named { table = marked.0 }, ready (length found.regions))

    abbrev pub filled_run :
        PrivacyRow → Found Bytes → Option (Bytes × String) → State → Outcome (State × Summary)
    filled_run row found none s = retry_or_exhaust 3 row redaction_failed "ENCODE_TOO_LARGE" s
    filled_run row found (some (body, digest)) s =
        let key = redacted_key row.listing_id row.asset_id in
        if engines.put key body
        then finished row found body digest (stored key body s)
        else retry_or_exhaust 3 row redaction_failed "STORAGE_ERROR" s

    abbrev pub scanned_run : PrivacyRow → Scanned Bytes → State → Outcome (State × Summary)
    scanned_run row (failed code) s = retry_or_exhaust 2 row processing_failed code s
    scanned_run row (scanned found) s =
        record_scan now row.asset_id found.scan (at 2 s) >>= λ wrote.
        filled_run row found (engines.fill_regions found.display (fillable found.regions))
          (record s { table = wrote.0 })

    -- `_run`
    unfoldable pub run : PrivacyRow → State → Outcome (State × Summary)
    unfolding retry_or_exhaust scan_of
    run row s = scanned_run row (scan_of engines row) s

    abbrev pub bumped : ℕ → PrivacyRow → String → Option ℕ → State → Outcome (State × Summary)
    bumped n row code none s = ok (s, rerun_abandoned code)
    bumped n row code (some attempts) s =
        if leb max_attempts attempts
        then exhausted_or_changed (suc n) row code s
        else ok (enqueued row.asset_id (delay_of attempts) s, rerun_failed code (delay_of attempts))

    -- `_rerun_failed`
    unfoldable pub rerun_failure : ℕ → PrivacyRow → String → State → Outcome (State × Summary)
    rerun_failure n row code s = bump_attempt now row.asset_id (at n s) >>= λ wrote.
        bumped n row code (wrote.1) (record s { table = wrote.0 })

    abbrev pub advanced :
        PrivacyRow → Found Bytes → List Region → String → Bool → State → Outcome (State × Summary)
    advanced row found regions digest changed s =
        record_scan_in_place now row.asset_id found.scan (at 2 s) >>= λ wrote.
        let noted : State = record s { table = wrote.0 } in
        advance_in_place now row.asset_id digest processing_version regions (at 3 noted)
        >>= λ moved. ok (
          record noted { table = moved.0 },
          if moved.1 == 0 then rerun_abandoned "" else rerun changed,
        )

    abbrev is_same : Option String → String → Bool
    is_same none digest = false
    is_same (some d) digest = str_eq d digest

    abbrev pub filled_rerun :
        PrivacyRow
        → Found Bytes
        → List Region
        → Option (Bytes × String)
        → State
        → Outcome (State × Summary)
    filled_rerun row found regions none s = rerun_failure 2 row "ENCODE_TOO_LARGE" s
    filled_rerun row found regions (some (body, digest)) s =
        let key = redacted_key row.listing_id row.asset_id in
        if is_same row.redacted_sha256 digest
        then advanced row found regions digest false s
        else if engines.put key body
        then advanced row found regions digest true (stored key body s)
        else rerun_failure 2 row "STORAGE_ERROR" s

    -- `union_auto` raises on a region without a point.
    abbrev pub united_rerun :
        PrivacyRow → Found Bytes → Option (List Region) → State → Outcome (State × Summary)
    united_rerun row found none s = raised value_error
    united_rerun row found (some regions) s =
        filled_rerun row found regions (engines.fill_regions found.display (fillable regions)) s

    abbrev pub scanned_rerun : PrivacyRow → Scanned Bytes → State → Outcome (State × Summary)
    scanned_rerun row (failed code) s = rerun_failure 2 row code s
    scanned_rerun row (scanned found) s =
        united_rerun row found (union_auto row.redaction_regions found.regions row.seller_confirmed)
          s

    -- `_rerun`
    unfoldable pub rerun_of : PrivacyRow → State → Outcome (State × Summary)
    unfolding rerun_failure scan_of union_auto
    rerun_of row s = scanned_rerun row (scan_of engines row) s

    abbrev or_row : Option PrivacyRow → PrivacyRow → PrivacyRow
    or_row none row = row
    or_row (some settled) row = settled

    abbrev pub claimed_run : PrivacyRow → Option PrivacyRow → State → Outcome (State × Summary)
    claimed_run row none s =
        let settled = or_row (read row.asset_id (at 2 s)) row in
        ok (
          record s { table = at 2 s },
          if status_eq settled.processing_status processing then in_progress else already_processed,
        )
    claimed_run row (some claimed) s = run claimed s

    abbrev pub read_run : Bool → String → Option PrivacyRow → State → Outcome (State × Summary)
    read_run configured asset_id none s = ok (s, gone)
    read_run configured asset_id (some row) s =
        if not configured
        then ok (s, storage_unavailable)
        else if one_of ready_states row.processing_status && is_some row.reprocess_reason
        then rerun_of row s
        else claim now asset_id version (at 1 s) >>= λ wrote.
            claimed_run row (wrote.1) (record s { table = wrote.0 })

    -- `process_photo`, with a connection; an id that is no uuid names no row.
    unfoldable pub process_photo : Bool → String → State → Outcome (State × Summary)
    unfolding run rerun_of
    process_photo configured asset_id s =
        read_run configured asset_id (read asset_id (at 0 s)) (record s { table = at 0 s })
