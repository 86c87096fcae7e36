-- ===== src/Census/Runs.antt =====
-- app/census/ingest.py: the life of one `ingest_run` row around a load. The rows that a load writes
-- are one transaction; the run's own row is written outside it.
use practice_match.Prelude.{ℕ, String, Bool, Option, none, some, List, [], ◌∷◌, ◌==◌}
use practice_match.Sql.{updated}

pub data RunStatus : Type 0 where
  running succeeded failed aborted : RunStatus

pub record IngestRun : Type 0 where
  pub id : ℕ
  pub dataset_key : String
  pub vintage : String
  pub status : RunStatus
  pub rows_written : ℕ
  pub request_count : ℕ
  pub raw_payload_uri : Option String
  pub error_detail : Option String
  pub notes : Option String
  pub started_at : ℕ
  pub finished_at : Option ℕ

-- The tables that hold loaded rows.
pub data DataTable : Type 0 where
  acs_measure cbp_industry zbp_industry bds_measure geo_area : DataTable

-- A loaded row, as far as a count reads it; `geo_area` names no run.
pub record LoadedRow : Type 0 where
  pub table : DataTable
  pub vintage : String
  pub ingest_run_id : Option ℕ

pub record Active : Type 0 where
  pub dataset_key : String
  pub vintage : String
  pub activated_at : ℕ
  pub activated_by : String
  pub note : Option String

pub record Db : Type 0 where
  pub ingest_run : List IngestRun
  pub rows : List LoadedRow
  pub active_vintage : List Active

-- `Run`: what the loader counts while it works.
pub record Progress : Type 0 where
  pub rows : ℕ
  pub requests : ℕ
  pub raw_uri : Option String
  pub notes : List String

-- How the body of the `with` block ends: with the rows it leaves, or by an exception, whose text
-- is `{type}: {message}` cut at 2000 characters.
pub data Body : Type 0 where
  completes : List LoadedRow → Progress → Body
  variable_missing : String → Progress → Body
  raises : String → Progress → Body

unfoldable pub start : ℕ → ℕ → String → String → Db → Db
start now id dataset_key vintage db = record db {
  ingest_run =
      record {
        id = id;
        dataset_key = dataset_key;
        vintage = vintage;
        status = running;
        rows_written = 0;
        request_count = 0;
        raw_payload_uri = none;
        error_detail = none;
        notes = none;
        started_at = now;
        finished_at = none;
      }
      ∷ db.ingest_run;
}

abbrev pub has_id : ℕ → IngestRun → Bool
has_id id r = r.id == id

abbrev pub finished_row :
    ℕ → RunStatus → ℕ → Progress → Option String → Option String → IngestRun → IngestRun
finished_row now status rows progress error notes r = record r {
  finished_at = some now;
  status = status;
  rows_written = rows;
  request_count = progress.requests;
  raw_payload_uri = progress.raw_uri;
  error_detail = error;
  notes = notes;
}

unfoldable pub finish : ℕ → ℕ → RunStatus → ℕ → Progress → Option String → Option String → Db → Db
finish now id status rows progress error notes db = record db {
  ingest_run =
      updated (has_id id) (finished_row now status rows progress error notes) db.ingest_run;
}

-- `_notes`; `join` is the newline join of the texts.
abbrev pub notes_of : (List String → String) → Progress → Option String
notes_of join progress = elim progress.notes [ [] ↦ none | n ∷ ns ↦ some (join (n ∷ ns)) ]

-- The `with run(...)` block: the id is the new row's, `body` what the block does.
unfoldable pub run : (List String → String) → ℕ → ℕ → ℕ → String → String → Body → Db → Db
unfolding start finish
run join began ended id dataset_key vintage (completes rows progress) db =
    finish ended id succeeded progress.rows progress none (notes_of join progress)
      (record (start began id dataset_key vintage db) { rows = rows })
run join began ended id dataset_key vintage (variable_missing error progress) db =
    finish ended id aborted 0 progress (some error) (notes_of join progress)
      (start began id dataset_key vintage db)
run join began ended id dataset_key vintage (raises error progress) db =
    finish ended id failed 0 progress (some error) (notes_of join progress)
      (start began id dataset_key vintage db)
