-- ===== src/Tests/Media.antt =====
-- app/tasks/media.py on one photograph whose display nobody can decode, and app/privacy/aggregate.py on
-- a few boxes and regions.
use practice_match.Prelude.{
  length, ℕ, Bool, false, ◌==◌, ◌+◌, ◌||◌, String, ◌≡◌, refl, true, Option, none, some, List, [],
  ◌∷◌, ◌++◌, map, any, if◌then◌else◌, All,
}
use practice_match.Sql.{ok}
use practice_match.Privacy.State.{not_show}
use practice_match.Privacy.Keys.{jpg, original_key, display_key}
use practice_match.Privacy.Row.{PrivacyRow, Region, Source, auto, manual, removed_by_seller}
use practice_match.Privacy.Assign.{inserted}
use practice_match.Privacy.Invariant.{IsSound}
use practice_match.Privacy.Invariant.Pipeline
use practice_match.Media.Regions.{
  Box, merged, merge_all, merge_once, absorb_first, absorbs, near, fused, area, bounding, sorted,
  insert_entry, with_area,
}
use practice_match.Media.Regions.Laws.{inside, covered, merged-covers, merged-ends}
use practice_match.Media.Union.{union_auto, fillable, measured, bounds, in_order, put_in}
use practice_match.Media.Union.Laws.{Drawn, union_auto-hides_more}
use practice_match.Privacy.Record.{Candidates, sweep_candidates}
use practice_match.Media.Sweep.{sweep, messages_for, is_found, sweep-once}
use practice_match.Media.{Engines, Message, Worked, lines, symbols, seen}
use practice_match.Media.Scanning.{failed, scan_of}
use practice_match.Media.Ladder.{Waits, ladder-ends, Reviewed, runs, with_row}

abbrev broken : Engines Unit Unit Unit Unit Unit Unit
broken = record {
  fetch = λ k. some tt;
  decode = λ b. none;
  read_text = λ i. lines [];
  read_symbols = λ i. symbols [];
  original_symbols = λ b i. symbols [];
  facts = λ l. record { visibility = not_show; text = "" };
  matches = λ ls f. [];
  analyse = λ b f. seen tt;
  regions_for = λ i ls ms ss v. none;
  report = λ i ls ms ss v d. record {
    ocr = "";
    identity_matches = "";
    vision = "";
    detected_regions = "";
  };
  fill_regions = λ b rs. none;
  put = λ k b. true;
}

undecodable : (r : PrivacyRow) → scan_of broken r ≡ failed "UNDECODABLE"
unfolding scan_of
undecodable r = refl

abbrev fresh : PrivacyRow
fresh =
    inserted 1 "a1" "l1" (original_key "l1" "a1" jpg) 2 (some (display_key "l1" "a1")) (some "d1")

fresh-IsSound : IsSound fresh
fresh-IsSound = Pipeline.inserted-IsSound 1 "a1" "l1" "l1" "a1" jpg 2 (some "d1")

fresh-Waits : Waits "a1" 2 fresh
unfolding inserted
fresh-Waits = record { sound = fresh-IsSound; named = refl; claimable = refl; current = refl }

ladder-ends_example :
    Reviewed broken 2 "UNDECODABLE" undecodable "a1" [] 2
      (runs broken 2 "a1" (2 ∷ 3 ∷ 4 ∷ []) (with_row fresh [] []))
unfolding inserted
ladder-ends_example =
    ladder-ends broken 2 "UNDECODABLE" undecodable "a1" fresh [] [] 2 (3 ∷ 4 ∷ []) fresh-Waits refl

abbrev start : Worked Unit
start = record { table = fresh ∷ []; objects = []; queue = [] }

-- A line of type over two boxes, one beside the other, and a sign apart.
abbrev line_a : Box
line_a = record { left = 0; top = 0; right = 100; bottom = 20 }

abbrev line_b : Box
line_b = record { left = 102; top = 0; right = 200; bottom = 20 }

abbrev sign : Box
sign = record { left = 600; top = 400; right = 700; bottom = 500 }

abbrev findings : List (Box × (ℕ × Option ℕ))
findings = (sign, (12, none)) ∷ (line_a, (12, some 0)) ∷ (line_b, (12, some 1)) ∷ []

two_left :
    map (λ e. e.box) (merged 4 findings)
    ≡ record { left = 0; top = 0; right = 200; bottom = 20 } ∷ sign ∷ []
unfolding merged merge_all merge_once absorb_first absorbs near fused area bounding sorted
    insert_entry
two_left = refl

abbrev pixel : Box
pixel = record { left = 150; top = 10; right = 151; bottom = 11 }

merged-covers_example : covered (merged 4 findings) pixel ≡ true
unfolding inside
merged-covers_example = merged-covers 4 pixel findings refl

merged-ends_example : merge_once 4 (merge_all 4 3 (map with_area findings)) ≡ none
merged-ends_example = merged-ends 4 findings

sweep-once_example :
    (s' : Worked Unit) × (n : ℕ) × (c : Candidates) × (put : List Message) × (sweep 500_000_000
        start
      ≡ ok (s', n))
    × (sweep_candidates 500_000_000 (fresh ∷ []) ≡ ok (s'.table, c))
    × All IsSound s'.table
    × (s'.queue ≡ put ++ [])
    × (n ≡ length put)
    × ((e : String) → messages_for e put ≡ (if is_found e c then 1 else 0))
sweep-once_example = sweep-once 500_000_000 start (fresh-IsSound, tt)

-- The seller drew a region and removed one; a re-run finds what they removed and something new.
abbrev square : ℕ → List (ℕ × ℕ)
square n = (n, n) ∷ (n + 10, n) ∷ (n + 10, n + 10) ∷ (n, n + 10) ∷ []

abbrev drawn : Region
drawn = record { id = "m1"; source = manual; polygon = square 50 }

abbrev removed : Region
removed = record { id = "a1"; source = removed_by_seller; polygon = square 10 }

abbrev approved : Region
approved = record { id = "a2"; source = auto; polygon = square 90 }

abbrev found_again : Region
found_again = record { id = "b1"; source = auto; polygon = square 10 }

abbrev found : Region
found = record { id = "b2"; source = auto; polygon = square 30 }

square-Drawn :
    (id : String) (s : Source) (n : ℕ) → Drawn (record { id = id; source = s; polygon = square n })
square-Drawn id s n = (_, _, refl)

-- The polygon starts at the point (90, 90).
abbrev at_approved : List (ℕ × ℕ) → Bool
at_approved [] = false
at_approved ((x, y) ∷ ps) = x == 90

unioned :
    union_auto (drawn ∷ removed ∷ approved ∷ []) (found_again ∷ found ∷ []) true
    ≡ some (removed ∷ found ∷ drawn ∷ approved ∷ [])
unfolding union_auto measured bounds in_order put_in inside
unioned = refl

replaced :
    union_auto (drawn ∷ removed ∷ approved ∷ []) (found_again ∷ found ∷ []) false
    ≡ some (removed ∷ found ∷ drawn ∷ [])
unfolding union_auto measured bounds in_order put_in inside
replaced = refl

union_auto-hides_more_example :
    (out : List Region) × (union_auto
        (drawn ∷ removed ∷ approved ∷ [])
        (found_again ∷ found ∷ [])
        true
      ≡ some out)
    × (any at_approved (fillable (drawn ∷ removed ∷ approved ∷ [])) ≡ true
        → any at_approved (fillable out) ≡ true)
    × (any at_approved (fillable out) ≡ true
        → (any at_approved (fillable (drawn ∷ removed ∷ approved ∷ []))
            || any at_approved (fillable (found_again ∷ found ∷ [])))
          ≡ true)
union_auto-hides_more_example =
    union_auto-hides_more at_approved (drawn ∷ removed ∷ approved ∷ []) (found_again ∷ found ∷ [])
      true
      (
        square-Drawn "m1" manual 50,
        (square-Drawn "a1" removed_by_seller 10, (square-Drawn "a2" auto 90, tt)),
      )
      (square-Drawn "b1" auto 10, (square-Drawn "b2" auto 30, tt))
