-- ===== src/Census/Vintage.antt =====
-- app/census/vintage.py: the check of a candidate vintage, and its activation. The ratio of two
-- counts is compared by products: 0.8 ≤ new / prior ≤ 1.25.
pub mod Laws
pub mod Live
use practice_match.Prelude.{
  ℕ, ◌+◌, ◌*◌, String, Bool, true, false, not, ◌&&◌, ◌||◌, Option, none, some, List, [], ◌∷◌, keep,
  any, is_some, str_eq, ltb, leb, ◌==◌, length, if◌then◌else◌,
}
use practice_match.Sql.{fetch_one}
use practice_match.Census.Runs.{
  DataTable, acs_measure, cbp_industry, zbp_industry, bds_measure, geo_area, LoadedRow, IngestRun,
  RunStatus, succeeded, Active, Db,
}

-- TABLE_FOR.get(dataset_key)
unfoldable pub table_for : String → Option DataTable
table_for key =
    if str_eq key "acs5" || str_eq key "acs5_subject" || str_eq key "acs5_prior"
    then some acs_measure
    else if str_eq key "cbp"
    then some cbp_industry
    else if str_eq key "zbp"
    then some zbp_industry
    else if str_eq key "bds"
    then some bds_measure
    else if str_eq key "tiger_cb"
    then some geo_area
    else none

abbrev table_code : DataTable → ℕ
table_code acs_measure = 0
table_code cbp_industry = 1
table_code zbp_industry = 2
table_code bds_measure = 3
table_code geo_area = 4

abbrev table_eq : DataTable → DataTable → Bool
table_eq s t = table_code s == table_code t

abbrev pub is_dataset : String → Active → Bool
is_dataset key a = str_eq a.dataset_key key

abbrev vintage_of : Option Active → Option String
vintage_of none = none
vintage_of (some a) = some a.vintage

-- active(conn).get(dataset_key)
unfoldable pub active : String → Db → Option String
active key db = vintage_of (fetch_one (keep (is_dataset key) db.active_vintage))

abbrev of_run : String → Option ℕ → List IngestRun → Bool
of_run key none runs = false
of_run key (some id) runs = any (λ r. r.id == id && str_eq r.dataset_key key) runs

abbrev counted : DataTable → String → String → Db → LoadedRow → Bool
counted geo_area key vintage db row = table_eq row.table geo_area && str_eq row.vintage vintage
counted table key vintage db row =
    table_eq row.table table
    && str_eq row.vintage vintage
    && of_run key row.ingest_run_id db.ingest_run

-- `_count`
unfoldable pub count : DataTable → String → String → Db → ℕ
count table key vintage db = length (keep (counted table key vintage db) db.rows)

abbrev pub newer : IngestRun → Option IngestRun → IngestRun
newer r none = r
newer r (some s) = if ltb s.id r.id then r else s

-- ORDER BY id DESC LIMIT 1
abbrev pub newest : List IngestRun → Option IngestRun
newest [] = none
newest (r ∷ rs) = some (newer r (newest rs))

abbrev pub is_run_of : String → String → IngestRun → Bool
is_run_of key vintage r = str_eq r.dataset_key key && str_eq r.vintage vintage

unfoldable pub latest_run : String → String → Db → Option IngestRun
latest_run key vintage db = newest (keep (is_run_of key vintage) db.ingest_run)

pub record Report : Type 0 where
  pub dataset_key : String
  pub vintage : String
  pub prior_vintage : Option String
  pub rows_new : ℕ
  pub rows_prior : ℕ
  pub last_run_status : Option RunStatus
  pub note : Option String
  pub run_notes : Option String

-- `prior if prior != vint else None`, and whether it is a text that is not empty.
abbrev other_than : String → Option String → Option String
other_than vintage none = none
other_than vintage (some prior) = if str_eq prior vintage then none else some prior

abbrev prior_count : DataTable → String → Option String → Db → ℕ
prior_count table key none db = 0
prior_count table key (some prior) db = if str_eq prior "" then 0 else count table key prior db

abbrev status_of : Option IngestRun → Option RunStatus
status_of none = none
status_of (some r) = some r.status

abbrev notes_of : Option IngestRun → Option String
notes_of none = none
notes_of (some r) = r.notes

unfoldable pub qa : DataTable → String → String → Db → Report
unfolding active count latest_run
qa table key vintage db =
    let prior = other_than vintage (active key db) in
    let latest = latest_run key vintage db in
    record {
      dataset_key = key;
      vintage = vintage;
      prior_vintage = prior;
      rows_new = count table key vintage db;
      rows_prior = prior_count table key prior db;
      last_run_status = status_of latest;
      note = none;
      run_notes = notes_of latest;
    }

pub data Activation : Type 0 where
  -- TABLE_FOR has no such key
  key_error : Activation
  not_succeeded partial out_of_range : Activation
  activated : Db → Report → Activation

abbrev pub is_succeeded : Option RunStatus → Bool
is_succeeded (some succeeded) = true
is_succeeded _ = false

-- There is no ratio, or it lies in [LOW, HIGH].
abbrev pub in_range : Report → Bool
in_range rep =
    rep.rows_prior == 0
    || leb (4 * rep.rows_prior) (5 * rep.rows_new) && leb (4 * rep.rows_new) (5 * rep.rows_prior)

-- INSERT … ON CONFLICT (dataset_key) DO UPDATE: the key is the table's primary key.
abbrev pub upsert : Active → List Active → List Active
upsert a rows = a ∷ keep (λ b. not (is_dataset a.dataset_key b)) rows

abbrev pub set_active : ℕ → String → String → String → Option String → Db → Db
set_active now key vintage by note db = record db {
  active_vintage =
      upsert
        (record {
          dataset_key = key;
          vintage = vintage;
          activated_at = now;
          activated_by = by;
          note = note;
        })
        db.active_vintage;
}

abbrev pub checked : ℕ → String → String → String → Bool → Option String → Db → Report → Activation
checked now key vintage by force note db rep =
    if not (is_succeeded rep.last_run_status)
    then not_succeeded
    else if is_some rep.run_notes
    then partial
    else if not (in_range rep) && not force
    then out_of_range
    else activated (set_active now key vintage by note db) (record rep { note = note })

-- TABLE_FOR[dataset_key]: a key that it lacks raises.
abbrev pub activate_in :
    Option DataTable → ℕ → String → String → String → Bool → Option String → Db → Activation
activate_in none now key vintage by force why db = key_error
activate_in (some table) now key vintage by force why db =
    checked now key vintage by force why db (qa table key vintage db)

unfoldable pub activate : ℕ → String → String → String → Bool → Option String → Db → Activation
unfolding qa
activate now key vintage by force note db =
    activate_in (table_for key) now key vintage by force note db
