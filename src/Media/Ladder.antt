-- ===== src/Media/Ladder.antt =====
-- The retry ladder of app/tasks/media.py: a photograph that no run can scan.
use practice_match.Prelude.{
  ℕ, suc, ◌+◌, String, ◌≡◌, refl, ◌∙◌, Bool, true, false, some, List, [], ◌∷◌, arith, leb, ◌==◌,
  str_eq, eq_refl, length,
}
use practice_match.Sql.{Outcome, ok, ◌>>=◌, update}
use practice_match.Privacy.State.{
  Status, processing, processing_failed, review_required as review_state, claimable_states, one_of,
  max_attempts, ready_states, exhaust_sources,
}
use practice_match.Privacy.Row.{PrivacyRow, checks}
use practice_match.Privacy.Assign.{
  claims, claimed, failed as failed_row, exhausted as exhausted_row, one_in,
}
use practice_match.Privacy.Invariant.{IsSound}
use practice_match.Privacy.Invariant.Pipeline
use practice_match.Privacy.Record.{write, read, claim, fail, exhaust}
use practice_match.Privacy.History.{Event, history}
use practice_match.Media.{Engines, Worked, Message}
use practice_match.Media.Scanning.{failed, scan_of}
use practice_match.Media.Worker.{
  retried, review_required, delay_of, process_photo, run, retry_or_exhaust,
}

write_one :
    (selects : PrivacyRow → Bool) (set : PrivacyRow → PrivacyRow) (r : PrivacyRow)
    → selects r ≡ true
    → checks (set r) ≡ true
    → write selects set (r ∷ []) ≡ ok (set r ∷ [], set r ∷ [])
unfolding update
write_one selects set r s c = rw (s, c) refl

-- No other actor writes.
abbrev pub alone : ℕ → List (ℕ × Event)
alone n = []

-- The row waits for a run.
pub record Waits (asset_id : String) (version : ℕ) (r : PrivacyRow) : Type 0 where
  pub sound : IsSound r
  pub named : str_eq r.asset_id asset_id ≡ true
  pub claimable : one_of claimable_states r.processing_status ≡ true
  pub current : leb r.processing_version version ≡ true

-- A worker's state in which the table has the one row.
abbrev pub with_row : {B : Type 0} → PrivacyRow → List (String × B) → List Message → Worked B
with_row r objects queue = record { table = r ∷ []; objects = objects; queue = queue }

module _ {Bytes Image Line Symbol Match Vision : Type 0}
    (engines : Engines Bytes Image Line Symbol Match Vision) (version : ℕ) (asset_id : String) where
  -- A run at each of the times, one after another.
  unfoldable pub runs : List ℕ → Worked Bytes → Outcome (Worked Bytes)
  unfolding process_photo
  runs [] s = ok s
  runs (now ∷ times) s =
      process_photo engines alone now version true asset_id s >>= λ p. runs times p.0

module _ {Bytes Image Line Symbol Match Vision : Type 0}
    (engines : Engines Bytes Image Line Symbol Match Vision) (version : ℕ) (code : String)
    (unscannable : (r : PrivacyRow) → scan_of engines r ≡ failed code) (asset_id : String) where
  module _ (now : ℕ) (r : PrivacyRow) (w : Waits asset_id version r) where
    claim_one : claim now asset_id version (r ∷ []) ≡ ok (claimed now r ∷ [], some (claimed now r))
    unfolding claim claims
    claim_one =
        rw
          (write_one (claims now asset_id version) (claimed now) r
            (ground (arith, w.named, w.current, w.claimable))
            (Pipeline.claimed-IsSound now r w.sound).checked)
          refl

    abbrev failed_one : PrivacyRow
    failed_one = failed_row now processing_failed code (claimed now r)

    abbrev exhausted_one : PrivacyRow
    exhausted_one = exhausted_row now code (claimed now r)

    is_running :
        (states : List Status)
        → one_of states processing ≡ true
        → one_in states r.asset_id (claimed now r) ≡ true
    unfolding claimed
    is_running states e = rw (eq_refl r.asset_id, e) refl

    fail_one :
        fail now r.asset_id processing_failed code (claimed now r ∷ [])
        ≡ ok (failed_one ∷ [], r.attempts + 1)
    unfolding fail claimed failed_row
    fail_one =
        rw
          (write_one (one_in (processing ∷ []) r.asset_id) (failed_row now processing_failed code)
            (claimed now r) (is_running (processing ∷ []) refl)
            (Pipeline.failed-IsSound now r.asset_id (claimed now r)
              (Pipeline.claimed-IsSound now r w.sound) processing_failed code
              (is_running (processing ∷ []) refl)).checked)
          refl

    exhaust_one : exhaust now r.asset_id code (claimed now r ∷ []) ≡ ok (exhausted_one ∷ [], 1)
    unfolding exhaust
    exhaust_one =
        rw
          (write_one (one_in exhaust_sources r.asset_id) (exhausted_row now code) (claimed now r)
            (is_running exhaust_sources refl)
            (Pipeline.exhausted-IsSound now (claimed now r) (Pipeline.claimed-IsSound now r w.sound)
              code).checked)
          refl

    not_ready : one_of ready_states r.processing_status ≡ false
    not_ready = ground (arith, w.claimable)

    module _ (objects : List (String × Bytes)) (queue : List Message) where
      run_once :
          process_photo engines alone now version true asset_id (with_row r objects queue)
          ≡ retry_or_exhaust engines alone now version 2
              (claimed now r)
              processing_failed
              code
              (with_row (claimed now r) objects queue)
      unfolding process_photo run history read
      run_once = rw (w.named, not_ready, claim_one, unscannable (claimed now r)) refl

      abbrev message : Message
      message = record {
        asset_id = r.asset_id;
        version = version;
        countdown = delay_of (r.attempts + 1);
      }

      -- Below the bound a run puts the row back with its message.
      retries :
          leb max_attempts (r.attempts + 1) ≡ false
          → process_photo engines alone now version true asset_id (with_row r objects queue)
            ≡ ok (
              with_row failed_one objects (message ∷ queue),
              retried processing_failed code (delay_of (r.attempts + 1)),
            )
      unfolding retry_or_exhaust history claimed
      retries below =
          let some_left : (r.attempts + 1 == 0) ≡ false = ground arith in
          run_once ∙ rw (below, fail_one, some_left) refl

      -- At the bound a run sends it to review.
      gives_up :
          leb max_attempts (r.attempts + 1) ≡ true
          → process_photo engines alone now version true asset_id (with_row r objects queue)
            ≡ ok (with_row exhausted_one objects queue, review_required code)
      unfolding retry_or_exhaust history claimed
      gives_up reached = run_once ∙ rw (reached, exhaust_one) refl

    -- The row after a failure waits again.
    failed_one-Waits : Waits asset_id version failed_one
    unfolding failed_row claimed
    failed_one-Waits = record {
      sound =
          Pipeline.failed-IsSound now r.asset_id (claimed now r)
            (Pipeline.claimed-IsSound now r w.sound) processing_failed code
            (is_running (processing ∷ []) refl);
      named = w.named;
      claimable = refl;
      current = w.current;
    }

  -- What the last run leaves: the row in review under the code, and the messages that were put.
  abbrev pub Reviewed : List Message → ℕ → Outcome (Worked Bytes) → Type 0
  Reviewed queue n m =
      (s : Worked Bytes) × (m ≡ ok s)
      × (r : PrivacyRow) × (s.table ≡ r ∷ [])
      × (r.processing_status ≡ review_state)
      × (r.last_error ≡ some code)
      × (length s.queue ≡ n + length queue)

  -- A photograph that waits with fewer than three attempts spent, alone in its table, and that no
  -- run can scan: after as many runs as the bound of three leaves it is in review under the
  -- failure's code, and each run but the last has put one message on the queue.
  pub ladder-ends :
      (r : PrivacyRow) (objects : List (String × Bytes)) (queue : List Message) (now : ℕ)
      (times : List ℕ)
      → Waits asset_id version r
      → r.attempts + suc (length times) ≡ 3
      → Reviewed queue
          (length times)
          (runs engines version asset_id (now ∷ times) (with_row r objects queue))
  unfolding runs exhausted_row failed_row claimed
  ladder-ends r objects queue now [] w e =
      let over : leb max_attempts (r.attempts + 1) ≡ true = ground (arith, e) in
      rw (gives_up now r w objects queue over)
        (_, refl, exhausted_one now r w, refl, refl, refl, omega (arith))
  ladder-ends r objects queue now (t ∷ times) w e =
      let below : leb max_attempts (r.attempts + 1) ≡ false = ground (arith, e) in
      let (s, m, x, table, status, error, size) =
        ladder-ends (failed_one now r w) objects (message now r w objects queue ∷ queue) t times
          (failed_one-Waits now r w) (omega (arith, e)) in
      rw (retries now r w objects queue below) (s, m, x, table, status, error, omega (arith, size))
