-- ===== src/Tests/Privacy.antt =====
-- app/privacy on one photograph: uploaded, processed, shown for review and confirmed.
use practice_match.Prelude.{ℕ, ◌≡◌, ◌≢◌, ◌↔◌, refl, true, false, none, some, List, [], ◌∷◌, All}
use practice_match.Sql.{ok, update, insert as insert_row}
use practice_match.Privacy.History.Named.{IsNamed, writers_never_raise}
use practice_match.Privacy.Keys.Own.{slash_free}
use practice_match.Privacy.State.{confirmed_states, one_of, not_show}
use practice_match.Privacy.Keys.{jpg, original_key, display_key, redacted_key, photo_prefix}
use practice_match.Privacy.Row.{PrivacyRow, checks}
use practice_match.Privacy.Assign.{
  Scan, inserted, claims, claimed, scan_recorded, derivative_recorded, made_ready, confirms,
  confirmed,
}
use practice_match.Privacy.Record.{
  Table, insert, read, claim, record_scan, record_derivative, mark_ready, confirm,
}
use practice_match.Privacy.Invariant.{IsSound, IsOriginalKey, IsDisplayKey}
use practice_match.Privacy.History.{Call, Event, Upload, apply, step, history}
use practice_match.Privacy.Delivery.{Variant, buyer_variant, offences, has_slash, asset_variant}
use practice_match.Privacy.Delivery.Laws.{buyer_variant-never_original, not_show_withholds}
use practice_match.Privacy.Delivery.Gate.{HasObjects, offences-nil_iff_served}

abbrev scan : Scan
scan = record { ocr = "{}"; identity_matches = "[]"; vision = "{}"; detected_regions = "[]" }

abbrev photo : Upload
photo = record { asset_id = "a1"; listing_id = "l1"; ext = jpg; display_sha = some "d1" }

abbrev a_day : List (ℕ × Event)
a_day =
    (1, Event.upload photo 2)
    ∷ (2, Event.call (Call.claims "a1" 2))
    ∷ (3, Event.call (Call.records_scan "a1" scan))
    ∷ (4, Event.call (Call.records_derivative "a1" "l1" "a1" "r1" []))
    ∷ (5, Event.call (Call.marks_ready "a1" false 2))
    ∷ (6, Event.call (Call.confirms "a1" "seller" not_show false))
    ∷ []

abbrev shown : PrivacyRow
shown = confirmed 6 "seller" not_show false (
    made_ready 5 false 2 (
      derivative_recorded 4 (redacted_key "l1" "a1") "r1" [] (
        scan_recorded 3 scan (
          claimed 2 (
            inserted 1 "a1" "l1" (original_key "l1" "a1" jpg) 2 (some (display_key "l1" "a1"))
              (some "d1"))))))

read-shown : read "a1" (history a_day []) ≡ some shown
unfolding read history step apply insert claim record_scan record_derivative mark_ready confirm
    insert_row update checks inserted claims claimed scan_recorded derivative_recorded made_ready
    confirms confirmed original_key display_key redacted_key photo_prefix
read-shown = refl

abbrev derivative : Variant
derivative = record { key = redacted_key "l1" "a1"; sha256 = "r1"; from_disk = false }

buyer_gets_derivative : buyer_variant not_show (some shown) "a1" none false ≡ some derivative
unfolding buyer_variant asset_variant inserted claimed scan_recorded derivative_recorded made_ready
    confirmed redacted_key photo_prefix
buyer_gets_derivative = refl

buyer_variant-never_original_example : ¬ IsOriginalKey (redacted_key "l1" "a1")
buyer_variant-never_original_example =
    buyer_variant-never_original a_day "a1" shown not_show "a1" none false derivative read-shown
      buyer_gets_derivative

not_show_withholds_example :
    (shown.redacted_storage_key ≡ some (redacted_key "l1" "a1"))
    × (shown.redacted_sha256 ≡ some "r1")
    × (one_of confirmed_states shown.processing_status ≡ true)
    × (shown.buyer_visible ≡ true)
    × (¬ IsDisplayKey (redacted_key "l1" "a1"))
    × (¬ IsOriginalKey (redacted_key "l1" "a1"))
not_show_withholds_example =
    not_show_withholds a_day "a1" shown "a1" none derivative read-shown buyer_gets_derivative

writers_never_raise_example :
    All IsSound (history a_day [])
    × All IsNamed (history a_day [])
    × ((t : Table) × (apply 7 (Call.resets_for_reprocess "a1") (history a_day []) ≡ ok t)
        × All IsSound t
        × All IsNamed t)
unfolding slash_free
writers_never_raise_example =
    writers_never_raise a_day 7 (Call.resets_for_reprocess "a1")
      (tt, (tt, (tt, ((refl, refl, refl), (tt, (tt, tt)))))) tt

shown-HasObjects : HasObjects shown
unfolding inserted claimed scan_recorded derivative_recorded made_ready confirmed redacted_key
    display_key photo_prefix
shown-HasObjects = record {
  redacted_key = refl;
  redacted_sha = refl;
  display_key = refl;
  display_sha = refl;
}

shown_flags :
    (has_slash "a1" ≡ false) × (shown.buyer_visible ≡ true) × (shown.reprocess_reason ≡ none)
unfolding has_slash inserted claimed scan_recorded derivative_recorded made_ready confirmed
shown_flags = (refl, refl, refl)

offences-nil_iff_served_example :
    (offences not_show "a1" (some shown) ≡ [])
    ↔ (buyer_variant not_show (some shown) "a1" none false ≢ none)
offences-nil_iff_served_example =
    offences-nil_iff_served not_show shown "a1" none shown_flags.0 shown_flags.1 shown_flags.2
      shown-HasObjects
