-- ===== src/Listing/Invariant/Rows.antt =====
-- The row that each UPDATE of app/api/seller_listings.py and app/api/admin_listings.py leaves
-- is sound again.
use practice_match.Prelude.{
  ℕ, String, ◌≡◌, refl, Bool, true, false, ◌&&◌, Option, List, [], ◌∷◌, is_some, arith,
}
use practice_match.Listing.Row.{
  Listing, draft, published, withdrawn, among, seller, listing_type_check, listing_bldg_check,
  column_types, listing_submittable_ck, status_eq,
}
use practice_match.Listing.Refusal.{gives}
use practice_match.Listing.Handler.{sent_back, moved_to}
use practice_match.Listing.Transitions.{
  submission, Action, pause, republish, withdraw, allowed_from, after, complete_enough, created,
}
use practice_match.Listing.Photos.{with_photos}
use practice_match.Listing.Decide.{
  Verdict, publish, decline, unpublish, decidable_from, reaches, first_published,
}
use practice_match.Listing.Invariant.{IsSound}

module _ (now : ℕ) where
  pub created-IsSound : (id account : String) → IsSound (created now id account)
  unfolding listing_type_check listing_bldg_check column_types listing_submittable_ck
  created-IsSound id account = record {
    typed = refl;
    housed = refl;
    fitting = refl;
    submittable = refl;
    placed = refl;
    paired = refl;
    settled = refl;
  }

  module _ (r : Listing) (h : IsSound r) where
    pub claimed-IsSound : IsSound (record r { source = seller })
    unfolding listing_type_check listing_bldg_check column_types listing_submittable_ck
    claimed-IsSound = record {
      typed = h.typed;
      housed = h.housed;
      fitting = h.fitting;
      submittable = h.submittable;
      placed = h.placed;
      paired = h.paired;
      settled = h.settled;
    }

    pub with_photos-IsSound : (slots : List (Option String)) → IsSound (with_photos now slots r)
    unfolding listing_type_check listing_bldg_check column_types listing_submittable_ck
    with_photos-IsSound slots = record {
      typed = h.typed;
      housed = h.housed;
      fitting = h.fitting;
      submittable = h.submittable;
      placed = h.placed;
      paired = h.paired;
      settled = h.settled;
    }

    -- A row that has been submitted goes back to review.
    pub sent_back-IsSound :
        among (draft ∷ withdrawn ∷ []) r.status ≡ false → IsSound (sent_back now r)
    unfolding listing_type_check listing_bldg_check column_types listing_submittable_ck
    sent_back-IsSound e = record {
      typed = h.typed;
      housed = h.housed;
      fitting = h.fitting;
      submittable = ground (arith, h.submittable);
      placed = h.placed;
      paired = h.paired;
      settled = refl;
    }

    pub submission-IsSound :
        (keeps : Bool) → complete_enough r ≡ gives tt → IsSound (submission now keeps r)
    unfolding listing_type_check listing_bldg_check column_types listing_submittable_ck
        complete_enough
    submission-IsSound keeps e = record {
      typed = h.typed;
      housed = h.housed;
      fitting = h.fitting;
      submittable = ground arith;
      placed = h.placed;
      paired = h.paired;
      settled = refl;
    }

    pub moved_to-IsSound :
        (a : Action) → among (allowed_from a) r.status ≡ true → IsSound (moved_to now (after a) r)
    unfolding listing_type_check listing_bldg_check column_types listing_submittable_ck
    moved_to-IsSound pause e = record {
      typed = h.typed;
      housed = h.housed;
      fitting = h.fitting;
      submittable = ground (arith, h.submittable);
      placed = h.placed;
      paired = h.paired;
      settled = ground (arith, h.settled);
    }
    moved_to-IsSound republish e = record {
      typed = h.typed;
      housed = h.housed;
      fitting = h.fitting;
      submittable = ground (arith, h.submittable);
      placed = h.placed;
      paired = h.paired;
      settled = ground (arith, h.settled);
    }
    moved_to-IsSound withdraw e = record {
      typed = h.typed;
      housed = h.housed;
      fitting = h.fitting;
      submittable = refl;
      placed = h.placed;
      paired = h.paired;
      settled = refl;
    }

    -- A decision that does not open the listing: a publish finds the state and the floor area.
    pub reaches-IsSound :
        (v : Verdict)
        → among (decidable_from v) r.status ≡ true
        → (status_eq (reaches v) published ≡ true → (is_some r.state && is_some r.sqft) ≡ true)
        → IsSound (moved_to now (reaches v) r)
    unfolding listing_type_check listing_bldg_check column_types listing_submittable_ck
    reaches-IsSound publish e k = record {
      typed = h.typed;
      housed = h.housed;
      fitting = h.fitting;
      submittable = ground (arith, h.submittable);
      placed = h.placed;
      paired = h.paired;
      settled = k refl;
    }
    reaches-IsSound decline e k = record {
      typed = h.typed;
      housed = h.housed;
      fitting = h.fitting;
      submittable = ground (arith, h.submittable);
      placed = h.placed;
      paired = h.paired;
      settled = refl;
    }
    reaches-IsSound unpublish e k = record {
      typed = h.typed;
      housed = h.housed;
      fitting = h.fitting;
      submittable = ground (arith, h.submittable);
      placed = h.placed;
      paired = h.paired;
      settled = ground (arith, h.settled);
    }

    pub first_published-IsSound :
        (state market slug : String)
        → among (decidable_from publish) r.status ≡ true
        → is_some r.sqft ≡ true
        → IsSound (first_published now state market slug r)
    unfolding listing_type_check listing_bldg_check column_types listing_submittable_ck
    first_published-IsSound state market slug e sized = record {
      typed = h.typed;
      housed = h.housed;
      fitting = h.fitting;
      submittable = ground (arith, h.submittable);
      placed = h.placed;
      paired = refl;
      settled = sized;
    }
