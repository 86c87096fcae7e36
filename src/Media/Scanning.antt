-- ===== src/Media/Scanning.antt =====
-- app/tasks/media.py: `_scan`, from the display object to the regions or to a failure code.
use practice_match.Prelude.{String, Option, none, some, List, ◌++◌}
use practice_match.Privacy.State.{Visibility}
use practice_match.Privacy.Row.{PrivacyRow, Region}
use practice_match.Privacy.Assign.{Scan}
use practice_match.Media.{
  Engines, Facts, Ocr, lines, ocr_unavailable, ocr_error, Barcodes, symbols, barcode_unavailable,
  barcode_error, seen, vision_failed,
}

-- `_scan`'s two answers.
pub record Found (Bytes : Type 0) : Type 0 where
  pub display : Bytes
  pub visibility : Visibility
  pub scan : Scan
  pub regions : List Region

pub data Scanned (Bytes : Type 0) : Type 0 where
  scanned : Found Bytes → Scanned Bytes
  failed : String → Scanned Bytes

abbrev text_or_empty : Option String → String
text_or_empty none = ""
text_or_empty (some s) = s

module _ {Bytes Image Line Symbol Match Vision : Type 0}
    (engines : Engines Bytes Image Line Symbol Match Vision) where
  abbrev both : Barcodes Symbol → Barcodes Symbol → Barcodes Symbol
  both (symbols xs) (symbols ys) = symbols (xs ++ ys)
  both (symbols xs) other = other
  both other ys = other

  -- The symbols of the display, then those of the original when the bucket has it.
  abbrev all_symbols : PrivacyRow → Image → Barcodes Symbol
  all_symbols row image = elim (engines.fetch row.original_storage_key) [
    | none ↦ engines.read_symbols image
    | some original ↦ both (engines.read_symbols image) (engines.original_symbols original image)
  ]

  abbrev measured :
      PrivacyRow → Bytes → Image → List Line → List Symbol → Facts → Vision → Scanned Bytes
  measured row display image ls ss facts v =
      let found = engines.matches ls facts in
      elim (engines.regions_for image ls found ss v) [
        | none ↦ failed "AGGREGATE_UNMEASURABLE"
        | some (detected, regions) ↦ scanned (record {
          display = display;
          visibility = facts.visibility;
          scan = engines.report image ls found ss v detected;
          regions = regions;
        })
      ]

  abbrev analysed : PrivacyRow → Bytes → Image → List Line → Barcodes Symbol → Scanned Bytes
  analysed row display image ls (symbols ss) =
      let facts = engines.facts row.listing_id in
      elim (engines.analyse display facts) [
        | vision_failed code ↦ failed code
        | seen v ↦ measured row display image ls ss facts v
      ]
  analysed row display image ls barcode_unavailable = failed "BARCODE_UNAVAILABLE"
  analysed row display image ls barcode_error = failed "BARCODE_ERROR"

  abbrev read_image : PrivacyRow → Bytes → Image → Ocr Line → Scanned Bytes
  read_image row display image (lines ls) = analysed row display image ls (all_symbols row image)
  read_image row display image ocr_unavailable = failed "OCR_UNAVAILABLE"
  read_image row display image ocr_error = failed "OCR_ERROR"

  -- `_scan`
  unfoldable pub scan_of : PrivacyRow → Scanned Bytes
  scan_of row = elim (engines.fetch (text_or_empty row.display_storage_key)) [
    | none ↦ failed "DISPLAY_MISSING"
    | some display ↦ elim (engines.decode display) [
      | none ↦ failed "UNDECODABLE"
      | some image ↦ read_image row display image (engines.read_text image)
    ]
  ]
