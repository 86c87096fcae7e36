-- ===== src/Privacy/History/Named.antt =====
-- The history of app/privacy/record.py as the pipeline writes it: each derivative is recorded under the
-- key of its own photograph, so that no statement meets the UNIQUE of redacted_storage_key.
use practice_match.Prelude.{
  ℕ, String, ◌≡◌, refl, sym, ◌∙◌, ap, subst, Bool, true, false, not, ◌&&◌, str_eq, Option, none,
  some, List, [], ◌∷◌, All, any, all, Bool-cases, inl, inr, eq_iff, arith, if◌then◌else◌,
}
use practice_match.Sql.{
  Outcome, ok, raised, unique_violation, update, updated, moved, updated-All, insert as insert_row,
}
use practice_match.Privacy.State.{Reason, scanned}
use practice_match.Privacy.Keys.{redacted_key}
use practice_match.Privacy.Keys.Own.{asset_of, slash_free, asset_of-redacted_key}
use practice_match.Privacy.Row.{PrivacyRow, Region, checks}
use practice_match.Privacy.Assign.{
  inserted, claimed, scan_recorded, scan_recorded_in_place, derivative_recorded, made_ready, failed,
  exhausted, confirmed, confirmation_reset, reset_to_retry, reset_to_reprocess, flagged, recovered,
  advanced_in_place, attempt_bumped, marked_published, visibility_set, one_in, lost_task,
  stale_version,
}
use practice_match.Privacy.Record.{
  Table, write, returning, insert, claim, record_scan, record_scan_in_place, record_derivative,
  mark_ready, fail, exhaust, confirm, reset_confirmation, reset_for_retry, reset_for_reprocess,
  flag_stale, flag_stale_version, sweep_candidates, advance_in_place, bump_attempt, mark_published,
  set_visibility, clashes, holds_key, same_text, processing_version,
}
use practice_match.Privacy.Invariant.{IsSound, On}
use practice_match.Privacy.History.{Call, Event, apply, after, step, history, or_unchanged}
use practice_match.Privacy.History.Safety.{IsFresh, apply-Succeeds, history-IsSound}

-- The key of a derivative is its own photograph's.
abbrev pub IsNamed : PrivacyRow → Type 0
IsNamed r = On (λ key. asset_of key ≡ r.asset_id) r.redacted_storage_key

-- As app/tasks/media.py calls `record_derivative`: with the key of the photograph and its listing.
abbrev pub IsFaithful : Call → Type 0
IsFaithful (Call.records_derivative a l k sha regions) =
    (k ≡ a) × (slash_free l ≡ true) × (slash_free a ≡ true)
IsFaithful c = Unit

abbrev pub IsFaithfulEvent : Event → Type 0
IsFaithfulEvent (Event.upload u v) = Unit
IsFaithfulEvent (Event.call c) = IsFaithful c

module _ {A : Type 0} (selects : PrivacyRow → Bool) (set : PrivacyRow → PrivacyRow) (f : Table → A)
    (keeps : (r : PrivacyRow) → IsNamed r → selects r ≡ true → IsNamed (set r)) where
  named : (t : Table) → All IsNamed t → All IsNamed (updated selects set t)
  named t h = updated-All IsNamed (λ r. true) selects set (λ r n. refl) keeps t h

  statement-IsNamed :
      (t : Table)
      → All IsNamed t
      → All IsNamed (or_unchanged t (after (returning f (write selects set t))))
  unfolding update
  statement-IsNamed t h = elim (Bool-cases (all checks (moved selects set t))) [
    | inl e ↦ rw e (named t h)
    | inr e ↦ rw e h
  ]

module _ (now : ℕ) (t : Table) (h : All IsNamed t) where
  insert-IsNamed :
      (row : PrivacyRow)
      → IsNamed row
      → All IsNamed (or_unchanged t (insert_row checks clashes row t))
  unfolding insert_row
  insert-IsNamed row n = elim (Bool-cases (checks row)) [
    | inr b ↦ rw b h
    | inl b ↦ elim (Bool-cases (any (clashes row) t)) [
      | inl e ↦ rw (b, e) h
      | inr e ↦ rw (b, e) (n, h)
    ]
  ]

  sweep-IsNamed : All IsNamed (or_unchanged t (after (sweep_candidates now t)))
  unfolding sweep_candidates flag_stale_version update recovered flagged
  sweep-IsNamed = elim (Bool-cases (all checks (moved (lost_task now) (recovered now) t))) [
    | inr e ↦ rw e h
    | inl e ↦
        let t' = updated (lost_task now) (recovered now) t in
        let h' = named {A = Unit {0}} (lost_task now) (recovered now) (λ r. tt) (λ r n s. n) t h in
        elim (Bool-cases
          (all checks (moved (stale_version processing_version) (flagged now Reason.version) t'))) [
            | inr e' ↦ rw (e, e') h
            | inl e' ↦
                rw (e, e')
                  (named {A = Unit {0}} (stale_version processing_version)
                    (flagged now Reason.version) (λ r. tt) (λ r n s. n) t' h')
          ]
  ]

  derivative-IsNamed :
      (a l sha : String) (regions : List Region)
      → slash_free l ≡ true
      → slash_free a ≡ true
      → (r : PrivacyRow) → one_in (scanned ∷ []) a r ≡ true
      → IsNamed (derivative_recorded now (redacted_key l a) sha regions r)
  unfolding derivative_recorded
  derivative-IsNamed a l sha regions e f r s =
      let own : str_eq r.asset_id a ≡ true = ground (arith, s) in
      asset_of-redacted_key l a e f ∙ sym ((eq_iff r.asset_id a).0 own)

  call-IsNamed : (c : Call) → IsFaithful c → All IsNamed (or_unchanged t (apply now c t))
  unfolding apply claim record_scan record_scan_in_place record_derivative mark_ready fail exhaust
      confirm reset_confirmation reset_for_retry reset_for_reprocess flag_stale flag_stale_version
      advance_in_place bump_attempt mark_published set_visibility claimed scan_recorded
      scan_recorded_in_place made_ready failed exhausted confirmed confirmation_reset reset_to_retry
      reset_to_reprocess flagged advanced_in_place attempt_bumped marked_published visibility_set
  call-IsNamed (Call.records_derivative a l k sha regions) (same, e, f) =
      or_raised (any (holds_key a (redacted_key l k)) t && any (one_in (scanned ∷ []) a) t) _ (
        rw same (statement-IsNamed _ _ _ (λ r n s. derivative-IsNamed a l sha regions e f r s) t h))
    where
      or_raised :
          (b : Bool) (m : Outcome (Table × Unit {0}))
          → All IsNamed (or_unchanged t (after m))
          → All IsNamed (or_unchanged t (after (if b then raised unique_violation else m)))
      or_raised true m s = h
      or_raised false m s = s
  call-IsNamed (Call.resets_for_reprocess a) e = statement-IsNamed _ _ _ (λ r n s. tt) t h
  call-IsNamed Call.sweeps e = sweep-IsNamed
  call-IsNamed c e = statement-IsNamed _ _ _ (λ r n s. n) t h

  step-IsNamed : (e : Event) → IsFaithfulEvent e → All IsNamed (step now e t)
  unfolding step insert inserted
  step-IsNamed (Event.upload u v) f = insert-IsNamed _ tt
  step-IsNamed (Event.call c) f = call-IsNamed c f

history-IsNamed :
    (es : List (ℕ × Event)) (t : Table)
    → All IsNamed t
    → All (λ e. IsFaithfulEvent e.1) es
    → All IsNamed (history es t)
unfolding history
history-IsNamed [] t h fs = h
history-IsNamed ((now, e) ∷ rest) t h fs =
    history-IsNamed rest (step now e t) (step-IsNamed now t h e fs.0) fs.1

-- No other photograph has the key that a faithful call writes.
IsNamed-IsFresh : (c : Call) (t : Table) → IsFaithful c → All IsNamed t → IsFresh c t
IsNamed-IsFresh (Call.records_derivative a l k sha regions) t (same, e, f) h = rw same (free t h)
  where
    key : String
    key = redacted_key l a

    apart :
        (o : Option String) (id : String)
        → On (λ k. asset_of k ≡ id) o
        → (not (str_eq id a) && same_text o (some key)) ≡ false
    apart none id n = ground arith
    apart (some k') id n = elim (Bool-cases (str_eq k' key)) [
      | inr other ↦ ground (arith, other)
      | inl here ↦
          let own : id ≡ a =
            sym n ∙ ap asset_of ((eq_iff k' key).0 here) ∙ asset_of-redacted_key l a e f in
          let known : str_eq id a ≡ true = (eq_iff id a).1 own in ground (arith, known)
    ]

    not_held : (r : PrivacyRow) → IsNamed r → holds_key a key r ≡ false
    not_held r n = apart r.redacted_storage_key r.asset_id n

    free : (t : Table) → All IsNamed t → any (holds_key a key) t ≡ false
    free [] h = refl
    free (r ∷ t) h = rw (not_held r h.0) (free t h.1)
IsNamed-IsFresh c t e h = tt

-- Take any history of uploads and writer calls in which each derivative is recorded under the key of
-- its photograph and its listing, whose ids hold no slash. Then every row satisfies the six CHECK
-- constraints of migration 041, a confirmation is found in the states SELLER_CONFIRMED and PUBLISHED
-- only, the derivative's key and digest are both there or both absent, the key names its own
-- photograph, and the next such call of any writer answers (it never raises, of a CHECK or of a
-- UNIQUE) and leaves a table of which all this holds again.
pub writers_never_raise :
    (es : List (ℕ × Event)) (now : ℕ) (c : Call)
    → All (λ e. IsFaithfulEvent e.1) es
    → IsFaithful c
    → All IsSound (history es [])
      × All IsNamed (history es [])
      × ((t : Table) × (apply now c (history es []) ≡ ok t) × All IsSound t × All IsNamed t)
writers_never_raise es now c fs f =
    let sound = history-IsSound es [] tt in
    let own = history-IsNamed es [] tt fs in
    let (t, e, after_sound) =
      apply-Succeeds now (history es []) sound c (IsNamed-IsFresh c (history es []) f own) in
    (
      sound,
      own,
      (
        t,
        e,
        after_sound,
        subst (λ m. All IsNamed (or_unchanged (history es []) m)) e
            (call-IsNamed now (history es []) own c f),
      ),
    )
