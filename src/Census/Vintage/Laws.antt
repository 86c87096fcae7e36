-- ===== src/Census/Vintage/Laws.antt =====
-- app/census/vintage.py after app/census/ingest.py: which loads can go live, and what an activation
-- leaves alone.
use practice_match.Prelude.{
  ℕ, String, ◌≡◌, refl, Bool, true, false, not, ◌&&◌, ◌||◌, Option, none, some, List, [], ◌∷◌, keep,
  ltb, is_some, ◌==◌, All, Bool-cases, inl, inr, arith, eq_refl, if◌then◌else◌, sym, ap, ◌∙◌,
}
use practice_match.Sql.{updated}
use practice_match.Census.Runs.{
  DataTable, IngestRun, RunStatus, running, succeeded, failed, aborted, Db, Progress, Body,
  completes, variable_missing, raises, start, finish, finished_row, run, notes_of, has_id,
}
use practice_match.Census.Vintage.Live.{is_activated}
use practice_match.Census.Vintage.{
  table_for, newer, newest, is_run_of, latest_run, qa, Report, not_succeeded, partial, out_of_range,
  activated, is_succeeded, in_range, checked, activate, activate_in,
}

-- The body completed, and the loader skipped nothing.
abbrev pub is_clean : Body → Bool
is_clean (completes rows progress) = elim progress.notes [ [] ↦ true | n ∷ ns ↦ false ]
is_clean _ = false

module _ (id : ℕ) where
  abbrev Older : IngestRun → Type 0
  Older r = ltb r.id id ≡ true

  updated-Older :
      (f : IngestRun → IngestRun)
      → ((r : IngestRun) → (f r).id ≡ r.id)
      → (rs : List IngestRun) → All Older rs
      → All Older (updated (has_id id) f rs)
  updated-Older f same [] h = tt
  updated-Older f same (r ∷ rs) h = elim (Bool-cases (has_id id r)) [
    | inl e ↦ rw (e, same r) (h.0, updated-Older f same rs h.1)
    | inr e ↦ rw e (h.0, updated-Older f same rs h.1)
  ]

  keep-Older : (p : IngestRun → Bool) (rs : List IngestRun) → All Older rs → All Older (keep p rs)
  keep-Older p [] h = tt
  keep-Older p (r ∷ rs) h = elim (Bool-cases (p r)) [
    | inl e ↦ rw e (h.0, keep-Older p rs h.1)
    | inr e ↦ rw e (keep-Older p rs h.1)
  ]

  newest-Older :
      (r : IngestRun) (rs : List IngestRun) → Older r → All Older rs → Older (newer r (newest rs))
  newest-Older r [] o h = o
  newest-Older r (s ∷ rs) o h = elim (Bool-cases (ltb ((newer s (newest rs)).id) r.id)) [
    | inl e ↦ rw e o
    | inr e ↦ rw e (newest-Older s rs h.0 h.1)
  ]

  newer-top :
      (r : IngestRun) (rs : List IngestRun) → r.id ≡ id → All Older rs → newer r (newest rs) ≡ r
  newer-top r [] e h = refl
  newer-top r (s ∷ rs) e h =
      let older : ltb ((newer s (newest rs)).id) r.id ≡ true = rw e (newest-Older s rs h.0 h.1) in
      rw older refl

and_assoc : (a b c : Bool) → (a && (b && c)) ≡ (a && b && c)
and_assoc true b c = refl
and_assoc false b c = refl

agree :
    (a b : Option RunStatus) (m n : Option String) (c x : Bool)
    → a ≡ b
    → m ≡ n
    → (is_succeeded b && not (is_some n)) ≡ c
    → (is_succeeded a && (not (is_some m) && x)) ≡ (c && x)
agree a b m n c x ea em clean =
    rw (ea, em, sym clean) (and_assoc (is_succeeded b) (not (is_some n)) x)

-- The row that `run` leaves is the latest run of its dataset and vintage.
abbrev started : ℕ → ℕ → String → String → IngestRun
started began id key vintage = record {
  id = id;
  dataset_key = key;
  vintage = vintage;
  status = running;
  rows_written = 0;
  request_count = 0;
  raw_payload_uri = none;
  error_detail = none;
  notes = none;
  started_at = began;
  finished_at = none;
}

module _ (began ended id : ℕ) (key vintage : String) where
  module _ (status : RunStatus) (n : ℕ) (progress : Progress) (error notes : Option String) where
    abbrev left : IngestRun
    left = finished_row ended status n progress error notes (started began id key vintage)

    finish-latest_run :
        (db db' : Db)
        → All (Older id) db.ingest_run
        → db'.ingest_run ≡ (start began id key vintage db).ingest_run
        → latest_run key vintage (finish ended id status n progress error notes db') ≡ some left
    unfolding latest_run finish start
    finish-latest_run db db' h same =
        let same_id : (id == id) ≡ true = ground arith in
        let f = finished_row ended status n progress error notes in
        let old = keep (is_run_of key vintage) (updated (has_id id) f db.ingest_run) in
        let older =
          keep-Older id (is_run_of key vintage) _
            (updated-Older id f (λ r. refl) db.ingest_run h) in
        let top = newer-top id left old refl older in
        rw (same, same_id, eq_refl key, eq_refl vintage, top) refl

  -- What an activation of that dataset and vintage does next.
  module _ (now : ℕ) (by : String) (force : Bool) (why : Option String) (db : Db) where
    checked-is_activated :
        (rep : Report)
        → is_activated (checked now key vintage by force why db rep) ≡ (
            is_succeeded rep.last_run_status
            && (not (is_some rep.run_notes) && (in_range rep || force)))
    checked-is_activated rep =
        cases (is_succeeded rep.last_run_status) (is_some rep.run_notes) (in_range rep) force _ _
      where
        cases :
            (s n i f : Bool) (d : Db) (rep : Report)
            → is_activated (
                if not s
                then not_succeeded
                else if n
                then partial
                else if not i && not f
                then out_of_range
                else activated d rep)
              ≡ (s && (not n && (i || f)))
        cases s n i f d rep = ground arith

    activate-known :
        (table : DataTable)
        → table_for key ≡ some table
        → activate now key vintage by force why db
          ≡ checked now key vintage by force why db (qa table key vintage db)
    unfolding activate
    activate-known table known = ap (λ o. activate_in o now key vintage by force why db) known

    qa-latest :
        (table : DataTable) (r : IngestRun)
        → latest_run key vintage db ≡ some r
        → ((qa table key vintage db).last_run_status ≡ some r.status)
          × ((qa table key vintage db).run_notes ≡ r.notes)
    unfolding qa
    qa-latest table r latest = rw latest (refl, refl)

  module _ (join : List String → String) (db : Db) where
    abbrev pub after : Body → Db
    after body = run join began ended id key vintage body db

    notes-clean :
        (ns : List String)
        → not (
            is_some (elim ns as (λ x. Option String) [ [] ↦ none | n ∷ ns ↦ some (join (n ∷ ns)) ]))
          ≡ elim ns as (λ x. Bool) [ [] ↦ true | n ∷ ns ↦ false ]
    notes-clean [] = refl
    notes-clean (n ∷ ns) = refl

    run-latest :
        All (Older id) db.ingest_run
        → (body : Body)
        → (r : IngestRun) × (latest_run key vintage (after body) ≡ some r)
          × ((is_succeeded (some r.status) && not (is_some r.notes)) ≡ is_clean body)
    unfolding run
    run-latest h (completes rows progress) =
        let notes = notes_of join progress in
        (
          left succeeded progress.rows progress none notes,
          finish-latest_run succeeded progress.rows progress none notes db
              (record (start began id key vintage db) { rows = rows }) h refl,
          notes-clean progress.notes,
        )
    run-latest h (variable_missing error progress) =
        let notes = notes_of join progress in
        (
          left aborted 0 progress (some error) notes,
          finish-latest_run aborted 0 progress (some error) notes db (start began id key vintage db)
              h refl,
          refl,
        )
    run-latest h (raises error progress) =
        let notes = notes_of join progress in
        (
          left failed 0 progress (some error) notes,
          finish-latest_run failed 0 progress (some error) notes db (start began id key vintage db)
              h refl,
          refl,
        )

    -- Right after a load whose run is newer than every other, an activation of its dataset (one
    -- that TABLE_FOR knows) and vintage goes through exactly when the load's body completed, its
    -- loader noted nothing that it skipped, and the row count is in range of the active vintage's
    -- or the operator forces it: force covers the range alone.
    pub activate-run :
        (now : ℕ) (by : String) (force : Bool) (why : Option String) (body : Body)
        (table : DataTable)
        → All (Older id) db.ingest_run
        → table_for key ≡ some table
        → is_activated (activate now key vintage by force why (after body))
          ≡ (is_clean body && (in_range (qa table key vintage (after body)) || force))
    activate-run now by force why body table h known =
        let (r, latest, clean) = run-latest h body in
        let (status, notes) = qa-latest now by force why (after body) table r latest in
        let known' = activate-known now by force why (after body) table known in
        let decided =
          checked-is_activated now by force why (after body) (qa table key vintage (after body)) in
        ap is_activated known' ∙ decided ∙ agree _ _ _ _ _ _ status notes clean
