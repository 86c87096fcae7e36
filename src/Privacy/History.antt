-- ===== src/Privacy/History.antt =====
-- app/privacy/record.py as the rest of the backend drives it: every call of a writer, and the
-- histories of such calls from an empty table.
pub mod Safety
pub mod Named
use practice_match.Prelude.{ℕ, String, Bool, Option, some, List, [], ◌∷◌}
use practice_match.Sql.{Outcome, ok, raised, ◌>>=◌}
use practice_match.Privacy.State.{Status, Visibility, Reason}
use practice_match.Privacy.Keys.{Ext, original_key, display_key, redacted_key}
use practice_match.Privacy.Row.{Region}
use practice_match.Privacy.Assign.{Scan}
use practice_match.Privacy.Record.{
  Table, insert, claim, record_scan, record_scan_in_place, record_derivative, mark_ready, fail,
  exhaust, confirm, reset_confirmation, reset_for_retry, reset_for_reprocess, flag_stale,
  flag_stale_version, sweep_candidates, advance_in_place, bump_attempt, mark_published,
  set_visibility,
}

-- A call of one of the module's writers, with its arguments.
pub data Call : Type 0 where
  claims : String → ℕ → Call
  records_scan : String → Scan → Call
  records_scan_in_place : String → Scan → Call
  -- the key is `redacted_key(listing_id, asset_id)`, as the pipeline passes it
  records_derivative : String → String → String → String → List Region → Call
  marks_ready : String → Bool → ℕ → Call
  fails : String → Status → String → Call
  exhausts : String → String → Call
  confirms : String → String → Visibility → Bool → Call
  resets_confirmation : String → Option (List Region) → Call
  resets_for_retry : String → Call
  resets_for_reprocess : String → Call
  flags_stale : String → Reason → Call
  flags_stale_version : Reason → Call
  sweeps : Call
  advances_in_place : String → String → ℕ → List Region → Call
  bumps_attempt : String → Call
  marks_published : String → Call
  sets_visibility : String → Bool → Call

abbrev pub after {ℓ} : {A : Type ℓ} → Outcome (Table × A) → Outcome Table
after result = result >>= λ p. ok (p.0)

unfoldable pub apply : ℕ → Call → Table → Outcome Table
apply now (claims a v) t = after (claim now a v t)
apply now (records_scan a s) t = after (record_scan now a s t)
apply now (records_scan_in_place a s) t = after (record_scan_in_place now a s t)
apply now (records_derivative a l k sha regions) t =
    after (record_derivative now a (redacted_key l k) sha regions t)
apply now (marks_ready a visible v) t = after (mark_ready now a visible v t)
apply now (fails a state code) t = after (fail now a state code t)
apply now (exhausts a code) t = after (exhaust now a code t)
apply now (confirms a account v is_edited) t = after (confirm now a account v is_edited t)
apply now (resets_confirmation a regions) t = after (reset_confirmation now a regions t)
apply now (resets_for_retry a) t = after (reset_for_retry now a t)
apply now (resets_for_reprocess a) t = after (reset_for_reprocess now a t)
apply now (flags_stale l reason) t = after (flag_stale now l reason t)
apply now (flags_stale_version reason) t = after (flag_stale_version now reason t)
apply now sweeps t = after (sweep_candidates now t)
apply now (advances_in_place a sha v regions) t = after (advance_in_place now a sha v regions t)
apply now (bumps_attempt a) t = after (bump_attempt now a t)
apply now (marks_published l) t = after (mark_published now l t)
apply now (sets_visibility a visible) t = after (set_visibility now a visible t)

-- A photograph as `insert` receives it.
pub record Upload : Type 0 where
  pub asset_id : String
  pub listing_id : String
  pub ext : Ext
  pub display_sha : Option String

pub data Event : Type 0 where
  upload : Upload → ℕ → Event
  call : Call → Event

-- A statement that raises is rolled back: the table is as it was.
abbrev pub or_unchanged : Table → Outcome Table → Table
or_unchanged t (ok t') = t'
or_unchanged t (raised v) = t

unfoldable pub step : ℕ → Event → Table → Table
unfolding apply
step now (upload u v) t = or_unchanged t (
    insert now u.asset_id u.listing_id (original_key u.listing_id u.asset_id u.ext) v
      (some (display_key u.listing_id u.asset_id)) u.display_sha t)
step now (call c) t = or_unchanged t (apply now c t)

unfoldable pub history : List (ℕ × Event) → Table → Table
unfolding step
history [] t = t
history ((now, e) ∷ rest) t = history rest (step now e t)
