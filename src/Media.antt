-- ===== src/Media.antt =====
-- app/tasks/media.py: the worker that turns an upload into its derivative. The engines, the object
-- store and the listing's facts are parameters; other actors may write the same table between any
-- two statements, and `meanwhile` says what they do.
pub mod Scanning
pub mod Worker
pub mod Ladder
pub mod Sweep
pub mod Union
pub mod Regions
use practice_match.Prelude.{ℕ, String, Bool, true, false, Option, none, some, List, [], ◌∷◌}
use practice_match.Privacy.State.{Visibility}
use practice_match.Privacy.Row.{PrivacyRow, Region}
use practice_match.Privacy.Assign.{Scan}
use practice_match.Privacy.Record.{Table}
use practice_match.Privacy.History.{Event, history}

-- What the text engine answers.
pub data Ocr (Line : Type 0) : Type 0 where
  lines : List Line → Ocr Line
  ocr_unavailable ocr_error : Ocr Line

pub data Barcodes (Symbol : Type 0) : Type 0 where
  symbols : List Symbol → Barcodes Symbol
  barcode_unavailable barcode_error : Barcodes Symbol

pub data Seen (Vision : Type 0) : Type 0 where
  seen : Vision → Seen Vision
  vision_failed : String → Seen Vision

-- The listing's facts, of which the worker itself reads the visibility.
pub record Facts : Type 0 where
  pub visibility : Visibility
  pub text : String

-- The engines and the bucket.
pub record Engines (Bytes Image Line Symbol Match Vision : Type 0) : Type 0 where
  pub fetch : String → Option Bytes
  pub decode : Bytes → Option Image
  pub read_text : Image → Ocr Line
  pub read_symbols : Image → Barcodes Symbol
  pub original_symbols : Bytes → Image → Barcodes Symbol
  pub facts : String → Facts
  pub matches : List Line → Facts → List Match
  pub analyse : Bytes → Facts → Seen Vision
  -- the detected and the redaction regions, or UnmeasurableRegion
  pub regions_for :
      Image → List Line → List Match → List Symbol → Vision → Option (String × List Region)
  -- the row's jsonb columns, of what was found
  pub report : Image → List Line → List Match → List Symbol → Vision → String → Scan
  -- of the display object and the polygons to fill
  pub fill_regions : Bytes → List (List (ℕ × ℕ)) → Option (Bytes × String)
  -- whether the bucket takes the object
  pub put : String → Bytes → Bool

-- A message on the queue, with its countdown in seconds.
pub record Message : Type 0 where
  pub asset_id : String
  pub version : ℕ
  pub countdown : ℕ

pub record Worked (Bytes : Type 0) : Type 0 where
  pub table : Table
  pub objects : List (String × Bytes)
  pub queue : List Message
