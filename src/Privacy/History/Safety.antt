-- ===== src/Privacy/History/Safety.antt =====
-- No history of calls makes a writer of app/privacy/record.py raise, and every row of every table
-- that a history reaches keeps the constraints of migration 041.
use practice_match.Prelude.{
  ℕ, String, ◌∷◌, ◌&&◌, false, if◌then◌else◌, ◌≡◌, refl, Bool, true, List, [], ◌∷◌, All, any,
  Bool-cases, inl, inr,
}
use practice_match.Sql.{
  Outcome, ok, raised, unique_violation, ◌>>=◌, update-keeps, updated, insert as insert_row,
}
use practice_match.Privacy.State.{Reason, scanned}
use practice_match.Privacy.Row.{PrivacyRow, Region, checks}
use practice_match.Privacy.Keys.{redacted_key}
use practice_match.Privacy.Assign
use practice_match.Privacy.Record.{
  Table, write, returning, insert, claim, record_scan, record_scan_in_place, record_derivative,
  mark_ready, fail, exhaust, confirm, reset_confirmation, reset_for_retry, reset_for_reprocess,
  flag_stale, flag_stale_version, sweep_candidates, advance_in_place, bump_attempt, mark_published,
  set_visibility, clashes, holds_key, processing_version,
}
use practice_match.Privacy.Invariant.{IsSound}
use practice_match.Privacy.Invariant.Pipeline
use practice_match.Privacy.Invariant.Review
use practice_match.Privacy.History.{Call, Event, Upload, apply, after, step, history, or_unchanged}

-- What a statement that keeps `IsSound` does: it answers, and the table it leaves is sound.
abbrev pub Succeeds : Outcome Table → Type 0
Succeeds result = (t : Table) × (result ≡ ok t) × All IsSound t

statement-Succeeds {ℓ} :
    {A : Type ℓ} (selects : PrivacyRow → Bool) (set : PrivacyRow → PrivacyRow) (f : Table → A)
    (t : Table)
    → ((r : PrivacyRow) → IsSound r → selects r ≡ true → IsSound (set r))
    → All IsSound t
    → Succeeds (returning f (write selects set t) >>= λ p. ok (p.0))
statement-Succeeds selects set f t keeps h =
    let (wrote, sound) = update-keeps IsSound checks selects set (λ r s. s.checked) keeps t h in
    (updated selects set t, rw wrote refl, sound)

insert_row-All :
    (t : Table) (row : PrivacyRow)
    → IsSound row
    → All IsSound t
    → All IsSound (or_unchanged t (insert_row checks clashes row t))
unfolding insert_row
insert_row-All t row new h = elim (Bool-cases (any (clashes row) t)) [
  | inl e ↦ rw (new.checked, e) h
  | inr e ↦ rw (new.checked, e) (new, h)
]

-- No other photograph has the key that the call writes.
abbrev pub IsFresh : Call → Table → Type 0
IsFresh (Call.records_derivative a l k sha regions) t =
    any (holds_key a (redacted_key l k)) t ≡ false
IsFresh c t = Unit

module _ (now : ℕ) (t : Table) (h : All IsSound t) where
  sweep-Succeeds : Succeeds (sweep_candidates now t >>= λ p. ok (p.0))
  unfolding sweep_candidates flag_stale_version
  sweep-Succeeds =
      let (e, sound) =
        update-keeps IsSound checks (Assign.lost_task now) (Assign.recovered now) (λ r s. s.checked)
          (λ r s e. Review.recovered-IsSound now r s e) t h in
      let t' = updated (Assign.lost_task now) (Assign.recovered now) t in
      let (e', sound') =
        update-keeps IsSound checks (Assign.stale_version processing_version)
          (Assign.flagged now Reason.version) (λ r s. s.checked)
          (λ r s e. Review.flagged-IsSound now r s Reason.version) t' sound in
      (
        updated (Assign.stale_version processing_version) (Assign.flagged now Reason.version) t',
        rw (e, e') refl,
        sound',
      )

  derivative-Succeeds :
      (a l k sha : String) (regions : List Region)
      → Succeeds (
          returning {A = Unit {0}}
            (λ rows. tt)
            (write
              (Assign.one_in (scanned ∷ []) a)
              (Assign.derivative_recorded now (redacted_key l k) sha regions)
              t)
          >>= λ p. ok (p.0))
  derivative-Succeeds a l k sha regions =
      statement-Succeeds _ _ _ t
        (λ r s e. Pipeline.derivative_recorded-IsSound now a r s l k sha regions e) h

  pub apply-Succeeds : (c : Call) → IsFresh c t → Succeeds (apply now c t)
  unfolding apply claim record_scan record_scan_in_place record_derivative mark_ready fail exhaust
      confirm reset_confirmation reset_for_retry reset_for_reprocess flag_stale flag_stale_version
      advance_in_place bump_attempt mark_published set_visibility
  apply-Succeeds (Call.claims a v) fresh =
      statement-Succeeds _ _ _ t (λ r s e. Pipeline.claimed-IsSound now r s) h
  apply-Succeeds (Call.records_scan a scan) fresh =
      statement-Succeeds _ _ _ t (λ r s e. Pipeline.scan_recorded-IsSound now a r s scan e) h
  apply-Succeeds (Call.records_scan_in_place a scan) fresh =
      statement-Succeeds _ _ _ t (λ r s e. Pipeline.scan_recorded_in_place-IsSound now r s scan) h
  apply-Succeeds (Call.records_derivative a l k sha regions) fresh =
      rw fresh (derivative-Succeeds a l k sha regions)
  apply-Succeeds (Call.marks_ready a visible v) fresh =
      statement-Succeeds _ _ _ t (λ r s e. Pipeline.made_ready-IsSound now a r s visible v e) h
  apply-Succeeds (Call.fails a state code) fresh =
      statement-Succeeds _ _ _ t (λ r s e. Pipeline.failed-IsSound now a r s state code e) h
  apply-Succeeds (Call.exhausts a code) fresh =
      statement-Succeeds _ _ _ t (λ r s e. Pipeline.exhausted-IsSound now r s code) h
  apply-Succeeds (Call.confirms a account v is_edited) fresh =
      statement-Succeeds _ _ _ t (λ r s e. Review.confirmed-IsSound now a r s account v is_edited e)
        h
  apply-Succeeds (Call.resets_confirmation a regions) fresh =
      statement-Succeeds _ _ _ t (λ r s e. Review.confirmation_reset-IsSound now a r s regions e) h
  apply-Succeeds (Call.resets_for_retry a) fresh =
      statement-Succeeds _ _ _ t (λ r s e. Review.reset_to_retry-IsSound now a r s e) h
  apply-Succeeds (Call.resets_for_reprocess a) fresh =
      statement-Succeeds _ _ _ t (λ r s e. Review.reset_to_reprocess-IsSound now r s) h
  apply-Succeeds (Call.flags_stale l reason) fresh =
      statement-Succeeds _ _ _ t (λ r s e. Review.flagged-IsSound now r s reason) h
  apply-Succeeds (Call.flags_stale_version reason) fresh =
      statement-Succeeds _ _ _ t (λ r s e. Review.flagged-IsSound now r s reason) h
  apply-Succeeds Call.sweeps fresh = sweep-Succeeds
  apply-Succeeds (Call.advances_in_place a sha v regions) fresh =
      statement-Succeeds _ _ _ t
        (λ r s e. Review.advanced_in_place-IsSound now a r s sha v regions e) h
  apply-Succeeds (Call.bumps_attempt a) fresh =
      statement-Succeeds _ _ _ t (λ r s e. Review.attempt_bumped-IsSound now r s) h
  apply-Succeeds (Call.marks_published l) fresh =
      statement-Succeeds _ _ _ t (λ r s e. Review.marked_published-IsSound now r s l e) h
  apply-Succeeds (Call.sets_visibility a visible) fresh =
      statement-Succeeds _ _ _ t (λ r s e. Review.visibility_set-IsSound now a r s visible e) h

  upload-IsSound : (u : Upload) (v : ℕ) → All IsSound (step now (Event.upload u v) t)
  unfolding step insert
  upload-IsSound u v =
      insert_row-All t _
        (Pipeline.inserted-IsSound now u.asset_id u.listing_id u.listing_id u.asset_id u.ext v
          u.display_sha)
        h

  pub step-IsSound : (e : Event) → All IsSound (step now e t)
  unfolding step apply record_derivative
  step-IsSound (Event.upload u v) = upload-IsSound u v
  step-IsSound (Event.call (Call.records_derivative a l k sha regions)) =
      let (t', e, sound) = derivative-Succeeds a l k sha regions in
      or_raised (any (holds_key a (redacted_key l k)) t && any (Assign.one_in (scanned ∷ []) a) t) _
        (rw e sound)
    where
      or_raised :
          (b : Bool) (m : Outcome (Table × Unit {0}))
          → All IsSound (or_unchanged t (after m))
          → All IsSound (or_unchanged t (after (if b then raised unique_violation else m)))
      or_raised true m s = h
      or_raised false m s = s
  step-IsSound (Event.call c) = let (t', e, sound) = apply-Succeeds c tt in rw e sound

pub history-IsSound :
    (es : List (ℕ × Event)) (t : Table) → All IsSound t → All IsSound (history es t)
unfolding history
history-IsSound [] t h = h
history-IsSound ((now, e) ∷ rest) t h = history-IsSound rest (step now e t) (step-IsSound now t h e)
