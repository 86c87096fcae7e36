-- ===== src/Privacy/Invariant/Pipeline.antt =====
-- app/privacy/record.py: the upload's INSERT and the pipeline's own statements keep `IsSound`.
use practice_match.Prelude.{some, ℕ, String, ◌≡◌, refl, Bool, true, Option, List, [], ◌∷◌, arith}
use practice_match.Privacy.State.{Status, processing, scanned, fail_sources, redaction_generated}
use practice_match.Privacy.Keys.{Ext, original_key, display_key, redacted_key}
use practice_match.Privacy.Row.{PrivacyRow, Region, checks}
use practice_match.Privacy.Assign.{
  Scan, inserted, claimed, scan_recorded, scan_recorded_in_place, derivative_recorded, made_ready,
  failed, exhausted, one_in,
}
use practice_match.Privacy.Invariant.{IsSound, redacted_key_fresh}

pub inserted-IsSound :
    (now : ℕ) (asset listing : String) (l a : String) (ext : Ext) (v : ℕ) (ds : Option String)
    → IsSound (inserted now asset listing (original_key l a ext) v (some (display_key l a)) ds)
unfolding inserted checks
inserted-IsSound now asset listing l a ext v ds = record {
  checked = refl;
  settled = λ e. cc;
  paired = refl;
  original = (l, a, ext, refl);
  derivative = tt;
  display = (l, a, refl);
}

module _ (now : ℕ) (asset : String) (r : PrivacyRow) (h : IsSound r) where
  pub scan_recorded-IsSound :
      (s : Scan) → one_in (processing ∷ []) asset r ≡ true → IsSound (scan_recorded now s r)
  unfolding scan_recorded checks
  scan_recorded-IsSound s e = record {
    checked = ground (arith, h.checked, h.settled);
    settled = ground (arith, h.settled);
    paired = h.paired;
    original = h.original;
    derivative = h.derivative;
    display = h.display;
  }

  pub derivative_recorded-IsSound :
      (l a sha256 : String) (regions : List Region)
      → one_in (scanned ∷ []) asset r ≡ true
      → IsSound (derivative_recorded now (redacted_key l a) sha256 regions r)
  unfolding derivative_recorded checks
  derivative_recorded-IsSound l a sha256 regions e = record {
    checked = ground (arith, h.checked, h.settled, redacted_key_fresh l a r h);
    settled = ground (arith, h.settled);
    paired = refl;
    original = h.original;
    derivative = (l, a, refl);
    display = h.display;
  }

  pub made_ready-IsSound :
      (visible : Bool) (v : ℕ)
      → one_in (redaction_generated ∷ []) asset r ≡ true
      → IsSound (made_ready now visible v r)
  unfolding made_ready checks
  made_ready-IsSound visible v e = record {
    checked = ground (arith, h.checked, h.settled);
    settled = ground (arith, h.settled);
    paired = h.paired;
    original = h.original;
    derivative = h.derivative;
    display = h.display;
  }

  pub failed-IsSound :
      (state : Status) (code : String)
      → one_in (fail_sources state) asset r ≡ true
      → IsSound (failed now state code r)
  unfolding failed checks
  failed-IsSound state code e = record {
    checked = ground (arith, h.checked, h.settled);
    settled = ground (arith, h.settled);
    paired = h.paired;
    original = h.original;
    derivative = h.derivative;
    display = h.display;
  }

module _ (now : ℕ) (r : PrivacyRow) (h : IsSound r) where
  pub claimed-IsSound : IsSound (claimed now r)
  unfolding claimed checks
  claimed-IsSound = record {
    checked = ground (arith, h.checked);
    settled = ground arith;
    paired = h.paired;
    original = h.original;
    derivative = h.derivative;
    display = h.display;
  }

  pub scan_recorded_in_place-IsSound : (s : Scan) → IsSound (scan_recorded_in_place now s r)
  unfolding scan_recorded_in_place checks
  scan_recorded_in_place-IsSound s = record {
    checked = h.checked;
    settled = h.settled;
    paired = h.paired;
    original = h.original;
    derivative = h.derivative;
    display = h.display;
  }

  pub exhausted-IsSound : (code : String) → IsSound (exhausted now code r)
  unfolding exhausted checks
  exhausted-IsSound code = record {
    checked = ground (arith, h.checked);
    settled = ground arith;
    paired = h.paired;
    original = h.original;
    derivative = h.derivative;
    display = h.display;
  }
