-- ===== src/Privacy/Invariant/Review.antt =====
-- app/privacy/record.py: the seller's and the reviewer's statements, and the sweeper's, keep
-- `IsSound`.
use practice_match.Prelude.{
  ℕ, String, ◌≡◌, refl, Bool, true, Option, none, some, List, arith, is_some, eq_refl,
}
use practice_match.Privacy.State.{ready_states, error_states, Visibility, Reason}
use practice_match.Privacy.Row.{PrivacyRow, Region, checks, digests_agree}
use practice_match.Privacy.Assign.{
  confirms, confirmed, confirmation_reset, reset_to_retry, reset_to_reprocess, flagged, lost_task,
  recovered, advanced_in_place, attempt_bumped, publishable, marked_published, may_set_visible,
  visibility_set, one_in,
}
use practice_match.Privacy.Invariant.{IsSound}

agrees_self : (sha : Option String) → is_some sha ≡ true → digests_agree sha sha ≡ true
agrees_self none h = cc
agrees_self (some s) h = eq_refl s

module _ (now : ℕ) (asset : String) (r : PrivacyRow) (h : IsSound r) where
  pub confirmed-IsSound :
      (account : String) (v : Visibility) (is_edited : Bool)
      → confirms asset r ≡ true
      → IsSound (confirmed now account v is_edited r)
  unfolding confirmed confirms checks
  confirmed-IsSound account v is_edited e = record {
    checked = ground (arith, h.checked, h.settled, agrees_self r.redacted_sha256);
    settled = λ _. refl;
    paired = h.paired;
    original = h.original;
    derivative = h.derivative;
    display = h.display;
  }

  pub confirmation_reset-IsSound :
      (regions : Option (List Region))
      → one_in ready_states asset r ≡ true
      → IsSound (confirmation_reset now regions r)
  unfolding confirmation_reset checks
  confirmation_reset-IsSound regions e = record {
    checked = ground (arith, h.checked);
    settled = ground arith;
    paired = h.paired;
    original = h.original;
    derivative = h.derivative;
    display = h.display;
  }

  pub reset_to_retry-IsSound : one_in error_states asset r ≡ true → IsSound (reset_to_retry now r)
  unfolding reset_to_retry checks
  reset_to_retry-IsSound e = record {
    checked = ground (arith, h.checked, h.settled);
    settled = ground (arith, h.settled);
    paired = h.paired;
    original = h.original;
    derivative = h.derivative;
    display = h.display;
  }

  pub advanced_in_place-IsSound :
      (sha256 : String) (v : ℕ) (regions : List Region)
      → one_in ready_states asset r ≡ true
      → IsSound (advanced_in_place now sha256 v regions r)
  unfolding advanced_in_place checks
  advanced_in_place-IsSound sha256 v regions e = record {
    checked = ground (arith, h.checked, h.settled, eq_refl sha256);
    settled = h.settled;
    paired = ground (arith, h.checked);
    original = h.original;
    derivative = h.derivative;
    display = h.display;
  }

  pub visibility_set-IsSound :
      (visible : Bool)
      → may_set_visible asset visible r ≡ true
      → IsSound (visibility_set now visible r)
  unfolding visibility_set may_set_visible checks
  visibility_set-IsSound visible e = record {
    checked = ground (arith, h.checked);
    settled = h.settled;
    paired = h.paired;
    original = h.original;
    derivative = h.derivative;
    display = h.display;
  }

module _ (now : ℕ) (r : PrivacyRow) (h : IsSound r) where
  pub reset_to_reprocess-IsSound : IsSound (reset_to_reprocess now r)
  unfolding reset_to_reprocess checks
  reset_to_reprocess-IsSound = record {
    checked = refl;
    settled = ground arith;
    paired = refl;
    original = h.original;
    derivative = tt;
    display = h.display;
  }

  pub flagged-IsSound : (reason : Reason) → IsSound (flagged now reason r)
  unfolding flagged checks
  flagged-IsSound reason = record {
    checked = ground (arith, h.checked);
    settled = h.settled;
    paired = h.paired;
    original = h.original;
    derivative = h.derivative;
    display = h.display;
  }

  pub recovered-IsSound : lost_task now r ≡ true → IsSound (recovered now r)
  unfolding recovered lost_task checks
  recovered-IsSound e = record {
    checked = ground (arith, h.checked, h.settled);
    settled = ground (arith, h.settled);
    paired = h.paired;
    original = h.original;
    derivative = h.derivative;
    display = h.display;
  }

  pub attempt_bumped-IsSound : IsSound (attempt_bumped now r)
  unfolding attempt_bumped checks
  attempt_bumped-IsSound = record {
    checked = h.checked;
    settled = h.settled;
    paired = h.paired;
    original = h.original;
    derivative = h.derivative;
    display = h.display;
  }

  pub marked_published-IsSound :
      (listing : String) → publishable listing r ≡ true → IsSound (marked_published now r)
  unfolding marked_published publishable checks
  marked_published-IsSound listing e = record {
    checked = ground (arith, h.checked);
    settled = λ _. refl;
    paired = h.paired;
    original = h.original;
    derivative = h.derivative;
    display = h.display;
  }
