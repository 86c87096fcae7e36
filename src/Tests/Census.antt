-- ===== src/Tests/Census.antt =====
-- app/census: the second load of a dataset, and its activation.
use practice_match.Prelude.{
  String, ◌≡◌, refl, true, false, ◌&&◌, ◌||◌, none, some, List, [], ◌∷◌, if◌then◌else◌,
}
use practice_match.Census.Runs.{
  acs_measure, LoadedRow, IngestRun, succeeded, Db, Progress, Body, completes,
}
use practice_match.Census.Vintage.{table_for, active, qa, in_range, activate}
use practice_match.Census.Vintage.Live.{database, is_activated, activate-effect}
use practice_match.Census.Vintage.Laws.{activate-run, after}

abbrev first_run : IngestRun
first_run = record {
  id = 1;
  dataset_key = "acs5";
  vintage = "2022";
  status = succeeded;
  rows_written = 1;
  request_count = 1;
  raw_payload_uri = none;
  error_detail = none;
  notes = none;
  started_at = 1;
  finished_at = some 2;
}

abbrev loaded : List LoadedRow
loaded = record { table = acs_measure; vintage = "2022"; ingest_run_id = some 1 } ∷ []

abbrev live : Db
live = record {
  ingest_run = first_run ∷ [];
  rows = loaded;
  active_vintage =
      record {
        dataset_key = "acs5";
        vintage = "2022";
        activated_at = 3;
        activated_by = "op";
        note = none;
      }
      ∷ [];
}

abbrev progress : Progress
progress = record { rows = 1; requests = 1; raw_uri = none; notes = [] }

abbrev join : List String → String
join texts = "skipped"

abbrev load : Body
load =
    completes (record { table = acs_measure; vintage = "2023"; ingest_run_id = some 2 } ∷ loaded)
      progress

known : table_for "acs5" ≡ some acs_measure
unfolding table_for
known = refl

activate-run_example :
    is_activated
      (activate 5 "acs5" "2023" "op" false none (after 4 5 2 "acs5" "2023" join live load))
    ≡ (true
        && (in_range (qa acs_measure "acs5" "2023" (after 4 5 2 "acs5" "2023" join live load))
            || false))
activate-run_example =
    activate-run 4 5 2 "acs5" "2023" join live 5 "op" false none load acs_measure (refl, tt) known

activate-effect_example :
    (active "acs5" (database live (activate 5 "acs5" "2023" "op" true none live)) ≡ (
      if is_activated (activate 5 "acs5" "2023" "op" true none live)
      then some "2023"
      else active "acs5" live))
    × (active "cbp" (database live (activate 5 "acs5" "2023" "op" true none live))
        ≡ active "cbp" live)
activate-effect_example = activate-effect 5 "acs5" "2023" "op" true none live "cbp" refl
